-- ===== src/Arch/Pipeline/Cycles.antt =====
-- The number of cycles of the pipeline simulation, and its main theorem.
use runix_os.Prelude.{
  ℕ, zero, suc, ◌+◌, ◌*◌, ◌<◌, ◌≤◌, ◌≡◌, ◌⊎◌, inl, inr, refl, sym, arith, true, false, Bool-cases,
  Option, some, List, length, ltb, subst,
}
use runix_os.Arch.Pipeline.{
  SimInstr, PipeStats, Pipe, start, running, retired, cycle, run, simulate_pipeline,
}
use runix_os.Arch.Pipeline.Retire.{retirements, retirements-start}
use runix_os.Arch.Pipeline.Bounds.{
  work, Counts, stalled, advanced, cycle-cases, fetch, running_none, running_some, cycle-work,
  cycle-Counts,
}

-- `ticks` is the number of cycles without a stall; it says where the first and the last instruction are.
record Phase (prog : List SimInstr) (p : Pipe) : Type 0 where
  pub ticks : ℕ
  pub counts : Counts prog p
  pub cycles_is : p.stats.cycles ≡ ticks + p.stats.stalls
  pub bound : ticks ≤ length prog + 4
  pub pc_first : ticks ≤ length prog → p.pc ≡ ticks
  pub pc_last : length prog ≤ ticks → p.pc ≡ length prog
  pub if_full : 0 < ticks → ticks ≤ length prog → retired p.if_stage ≡ 1
  pub if_empty : length prog < ticks → retired p.if_stage ≡ 0
  pub id_full : 1 < ticks → ticks ≤ length prog + 1 → retired p.id_stage ≡ 1
  pub id_empty : length prog + 1 < ticks → retired p.id_stage ≡ 0
  pub ex_full : ticks ≡ length prog + 2 → retired p.ex_stage ≡ 1
  pub ex_empty : length prog + 2 < ticks → retired p.ex_stage ≡ 0
  pub mem_full : ticks ≡ length prog + 3 → retired p.mem_stage ≡ 1
  pub mem_empty : length prog + 3 < ticks → retired p.mem_stage ≡ 0

start-Phase : (prog : List SimInstr) → 0 < length prog → Phase prog start
unfolding start
start-Phase prog h = record {
  ticks = 0;
  counts = record { fetched = omega arith; all = refl };
  cycles_is = refl;
  bound = omega arith;
  pc_first = λ _. refl;
  pc_last = λ a. absurd (omega (arith, a, h));
  if_full = λ a _. absurd (omega (arith, a));
  if_empty = λ _. refl;
  id_full = λ a _. absurd (omega (arith, a));
  id_empty = λ _. refl;
  ex_full = λ a. absurd (omega (arith, a));
  ex_empty = λ _. refl;
  mem_full = λ a. absurd (omega (arith, a));
  mem_empty = λ _. refl;
}

module _ (prog : List SimInstr) (p : Pipe) (some_prog : 0 < length prog) (h : running prog p ≡ true)
    (f : Phase prog p) where
  -- A stall leaves the number of ticks, and the last instruction is not past the decode stage.
  stalled-Phase :
      retired p.id_stage ≡ 1 → Counts prog (stalled prog p) → Phase prog (stalled prog p)
  stalled-Phase a c =
      let early : f.ticks ≤ length prog + 1 = elim (Bool-cases (ltb (length prog + 1) f.ticks)) [
        | inl e ↦ absurd (omega (arith, a, f.id_empty (ground (arith, e))))
        | inr e ↦ ground (arith, e)
      ] in
      record {
        ticks = f.ticks;
        counts = c;
        cycles_is = omega (arith, f.cycles_is);
        bound = f.bound;
        pc_first = f.pc_first;
        pc_last = f.pc_last;
        if_full = f.if_full;
        if_empty = f.if_empty;
        id_full = f.id_full;
        id_empty = f.id_empty;
        ex_full = λ e. absurd (omega (arith, e, early));
        ex_empty = λ e. absurd (omega (arith, e, early));
        mem_full = λ e. absurd (omega (arith, e, early));
        mem_empty = λ e. absurd (omega (arith, e, early));
      }

  -- A pipeline that runs has not come to the last tick.
  running_early : f.ticks < length prog + 4
  running_early = elim (Bool-cases (ltb f.ticks (length prog + 4))) [
    | inl e ↦ ground (arith, e)
    | inr e ↦
        let late : length prog + 4 ≤ f.ticks = ground (arith, e) in
        elim (running_some prog p h) [
          | inl lt ↦ absurd (omega (arith, lt, f.pc_last (omega (arith, late))))
          | inr flight ↦ absurd (
              omega (
                arith,
                flight,
                f.if_empty (omega (arith, late)),
                f.id_empty (omega (arith, late)),
                f.ex_empty (omega (arith, late)),
                f.mem_empty (omega (arith, late)),
              ))
        ]
  ]

  advanced-Phase : Counts prog (advanced prog p) → Phase prog (advanced prog p)
  advanced-Phase c =
      let early = running_early in
      let fetched = fetch prog p f.counts.fetched in
      record {
        ticks = f.ticks + 1;
        counts = c;
        cycles_is = omega (arith, f.cycles_is);
        bound = omega (arith, early);
        pc_first = λ a. elim fetched [
          | inl (lt, n, i) ↦ omega (arith, n, f.pc_first (omega (arith, a)))
          | inr (q, n, i) ↦ absurd (omega (arith, q, a, f.pc_first (omega (arith, a))))
        ];
        pc_last = λ a. elim fetched [
          | inl (lt, n, i) ↦ elim (Bool-cases (ltb f.ticks (length prog))) [
            | inl e ↦
                let b : f.ticks < length prog = ground (arith, e) in
                omega (arith, n, a, b, f.pc_first (omega (arith, b)))
            | inr e ↦ absurd (omega (arith, lt, f.pc_last (ground (arith, e))))
          ]
          | inr (q, n, i) ↦ omega (arith, q, n)
        ];
        if_full = λ _ b. elim fetched [
          | inl (lt, n, i) ↦ i
          | inr (q, n, i) ↦ absurd (omega (arith, q, b, f.pc_first (omega (arith, b))))
        ];
        if_empty = λ a. elim fetched [
          | inl (lt, n, i) ↦ absurd (omega (arith, lt, f.pc_last (omega (arith, a))))
          | inr (q, n, i) ↦ i
        ];
        id_full = λ a b. f.if_full (omega (arith, a)) (omega (arith, b));
        id_empty = λ a. f.if_empty (omega (arith, a));
        ex_full = λ e. f.id_full (omega (arith, e, some_prog)) (omega (arith, e));
        ex_empty = λ a. f.id_empty (omega (arith, a));
        mem_full = λ e. f.ex_full (omega (arith, e));
        mem_empty = λ a. f.ex_empty (omega (arith, a));
      }

  cycle-Phase : Phase prog (cycle prog p)
  cycle-Phase =
      let c = cycle-Counts prog p f.counts in
      elim (cycle-cases prog p) [
        | inl (e, a, b) ↦ subst (Phase prog) (sym e) (stalled-Phase a (subst (Counts prog) e c))
        | inr e ↦ subst (Phase prog) (sym e) (advanced-Phase (subst (Counts prog) e c))
      ]

-- A run has ended with the program's figures.
abbrev pub HasEnded : List SimInstr → Option PipeStats → Type 0
HasEnded prog result =
    (stats : PipeStats) × (result ≡ some stats)
    × (stats.instrs ≡ length prog)
    × (stats.cycles ≡ length prog + stats.stalls + 4)

le-or-lt : (a b : ℕ) → (a ≤ b) ⊎ (b < a)
le-or-lt a b = elim (Bool-cases (ltb b a)) [
  | inl e ↦ inr (ground (arith, e))
  | inr e ↦ inl (ground (arith, e))
]

-- A pipeline stops at the last tick.
stopped-last :
    (prog : List SimInstr) (p : Pipe)
    → 0 < length prog
    → running prog p ≡ false
    → (f : Phase prog p) → f.ticks ≡ length prog + 4
stopped-last prog p some_prog h f =
    let (pc, a, b, c, d) = running_none prog p f.counts.fetched h in
    elim (le-or-lt f.ticks (length prog)) [
      | inl l ↦
          let t = f.pc_first l in
          absurd (omega (arith, t, pc, a, f.if_full (omega (arith, t, pc, some_prog)) l))
      | inr l ↦ elim (le-or-lt f.ticks (length prog + 1)) [
        | inl m ↦ absurd (omega (arith, b, f.id_full (omega (arith, l, some_prog)) m))
        | inr m ↦ elim (le-or-lt f.ticks (length prog + 2)) [
          | inl n ↦ absurd (omega (arith, c, f.ex_full (omega (arith, m, n))))
          | inr n ↦ elim (le-or-lt f.ticks (length prog + 3)) [
            | inl o ↦ absurd (omega (arith, d, f.mem_full (omega (arith, n, o))))
            | inr o ↦ omega (arith, o, f.bound)
          ]
        ]
      ]
    ]

stopped-HasEnded :
    (prog : List SimInstr) (p : Pipe)
    → 0 < length prog
    → running prog p ≡ false
    → Phase prog p
    → HasEnded prog (some p.stats)
stopped-HasEnded prog p some_prog h f =
    let (pc, a, b, c, d) = running_none prog p f.counts.fetched h in
    (
      p.stats,
      refl,
      omega (arith, f.counts.all, pc, a, b, c, d),
      omega (arith, f.cycles_is, stopped-last prog p some_prog h f),
    )

run-HasEnded :
    (fuel : ℕ) (prog : List SimInstr) (p : Pipe)
    → 0 < length prog
    → work prog p ≤ fuel
    → Phase prog p
    → HasEnded prog (run fuel prog p)
unfolding run
run-HasEnded zero prog p some_prog w f = elim (Bool-cases (running prog p)) [
  | inl h ↦ absurd (omega (arith, w, cycle-work prog p f.counts.fetched h))
  | inr h ↦ simp h (stopped-HasEnded prog p some_prog h f)
]
run-HasEnded (suc fuel) prog p some_prog w f = elim (Bool-cases (running prog p)) [
  | inl h ↦ simp h (
      run-HasEnded fuel prog (cycle prog p) some_prog
        (omega (arith, w, cycle-work prog p f.counts.fetched h)) (cycle-Phase prog p some_prog h f))
  | inr h ↦ simp h (stopped-HasEnded prog p some_prog h f)
]

work-start : (prog : List SimInstr) → work prog start ≤ 5 * length prog
unfolding start
work-start prog = omega arith

-- The simulation of every program that is not empty ends; what leaves its last stage, in the rounds that
-- the simulation may take, is the program, each instruction exactly once and in order; it counts as many
-- retired instructions as the program has; and it takes exactly one cycle for each instruction, one for
-- each stall and four to drain.
pub simulate_pipeline-HasEnded :
    (prog : List SimInstr)
    → 0 < length prog
    → HasEnded prog (simulate_pipeline prog) × (retirements (5 * length prog) prog start ≡ prog)
unfolding simulate_pipeline
simulate_pipeline-HasEnded prog h = (
  run-HasEnded (5 * length prog) prog start h (work-start prog) (start-Phase prog h),
  retirements-start prog,
)
