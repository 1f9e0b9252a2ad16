-- ===== src/Arch/Pipeline.antt =====
-- kernel/arch_sim/mod.rs, `simulate_pipeline`: a pipeline of five stages, four of which hold an
-- instruction between cycles. The counters are 64-bit and stay below five times the program's length,
-- which is also the bound on the number of rounds.
pub mod Bounds
pub mod Cycles
pub mod Retire
use runix_os.Prelude.{
  ℕ, zero, suc, ◌+◌, ◌*◌, Bool, true, false, not, ◌&&◌, ◌||◌, Option, none, some, List, ◌==◌,
  if◌then◌else◌, ltb, length, get_elem?, is_some,
}

pub data InstrKind : Type 0 where
  alu load store branch : InstrKind

pub record SimInstr : Type 0 where
  pub kind : InstrKind
  pub rd : ℕ
  pub rs1 : ℕ
  pub rs2 : ℕ

pub record PipeStats : Type 0 where
  pub instrs : ℕ
  pub cycles : ℕ
  pub stalls : ℕ

-- The variables of the loop.
pub record Pipe : Type 0 where
  pub stats : PipeStats
  pub if_stage : Option SimInstr
  pub id_stage : Option SimInstr
  pub ex_stage : Option SimInstr
  pub mem_stage : Option SimInstr
  pub pc : ℕ

unfoldable pub start : Pipe
start = record {
  stats = record { instrs = 0; cycles = 0; stalls = 0 };
  if_stage = none;
  id_stage = none;
  ex_stage = none;
  mem_stage = none;
  pc = 0;
}

abbrev pub running : List SimInstr → Pipe → Bool
running prog p =
    ltb p.pc (length prog)
    || (is_some p.if_stage || (is_some p.id_stage || (is_some p.ex_stage || is_some p.mem_stage)))

-- Whether an instruction in a later stage writes a register that `id_instr` reads.
unfoldable pub reads_from : SimInstr → Option SimInstr → Bool
reads_from id_instr none = false
reads_from id_instr (some other) =
    not (other.rd == 0) && (other.rd == id_instr.rs1 || other.rd == id_instr.rs2)

-- The hazard of a cycle. By then `mem_stage` has taken over `ex_stage`, which is empty.
unfoldable pub raw_hazard : Pipe → Bool
raw_hazard p = elim p.id_stage [
  | none ↦ false
  | some id_instr ↦ reads_from id_instr none || reads_from id_instr p.ex_stage
]

abbrev pub retired : Option SimInstr → ℕ
retired none = 0
retired (some instr) = 1

-- A round of the loop.
unfoldable pub cycle : List SimInstr → Pipe → Pipe
cycle prog p =
    let instrs = p.stats.instrs + retired p.mem_stage in
    let cycles = p.stats.cycles + 1 in
    if raw_hazard p
    then (record p {
      stats = record { instrs = instrs; cycles = cycles; stalls = p.stats.stalls + 1 };
      ex_stage = none;
      mem_stage = p.ex_stage;
    })
    else (record {
      stats = record { instrs = instrs; cycles = cycles; stalls = p.stats.stalls };
      if_stage = get_elem? prog p.pc;
      id_stage = p.if_stage;
      ex_stage = p.id_stage;
      mem_stage = p.ex_stage;
      pc = if ltb p.pc (length prog) then p.pc + 1 else p.pc;
    })

-- The loop; `none` is a loop that has not ended after `fuel` rounds.
unfoldable pub run : ℕ → List SimInstr → Pipe → Option PipeStats
run zero prog p = if running prog p then none else some p.stats
run (suc fuel) prog p =
    let rest = run fuel prog (cycle prog p) in if running prog p then rest else some p.stats

-- The early return for an empty program is the loop's own result for it.
unfoldable pub simulate_pipeline : List SimInstr → Option PipeStats
simulate_pipeline prog = run (5 * length prog) prog start
