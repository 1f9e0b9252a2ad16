-- ===== src/Arch/Pipeline/Retire.antt =====
-- Which instructions the pipeline simulation retires, and in what order.
use runix_os.Prelude.{
  ℕ, zero, suc, ◌+◌, ◌*◌, ◌<◌, ◌≤◌, ◌≡◌, refl, sym, ap, ◌∙◌, arith, false, Bool-cases, inl, inr,
  Option, none, some, List, [], ◌∷◌, if◌then◌else◌, ltb, length, get_elem?, drop,
}
use runix_os.Arch.Pipeline.{SimInstr, Pipe, start, running, retired, cycle}
use runix_os.Arch.Pipeline.Bounds.{
  work, Counts, advanced, cycle-cases, running_none, cycle-work, cycle-Counts,
}

-- An instruction, if there is one, before others.
unfoldable pub onto : Option SimInstr → List SimInstr → List SimInstr
onto none instrs = instrs
onto (some instr) instrs = instr ∷ instrs

-- What leaves the memory stage in the rounds of a run, in order; these are what the counter counts.
unfoldable pub retirements : ℕ → List SimInstr → Pipe → List SimInstr
unfolding onto
retirements zero prog p = []
retirements (suc fuel) prog p =
    let rest = retirements fuel prog (cycle prog p) in
    if running prog p then onto p.mem_stage rest else []

-- The instructions in flight, the oldest first, before others.
abbrev flight : Pipe → List SimInstr → List SimInstr
flight p rest = onto p.mem_stage (onto p.ex_stage (onto p.id_stage (onto p.if_stage rest)))

onto-none : (o : Option SimInstr) (rest : List SimInstr) → retired o ≡ 0 → onto o rest ≡ rest
unfolding onto
onto-none none rest h = refl
onto-none (some i) rest h = absurd (omega (arith, h))

drop-end : (prog : List SimInstr) (pc : ℕ) → length prog ≤ pc → drop pc prog ≡ []
drop-end [] zero h = refl
drop-end [] (suc pc) h = refl
drop-end (x ∷ prog) zero h = absurd (omega (arith, h))
drop-end (x ∷ prog) (suc pc) h = drop-end prog pc (omega (arith, h))

fetched_first :
    (prog : List SimInstr) (pc : ℕ)
    → pc < length prog
    → onto (get_elem? prog pc) (drop (pc + 1) prog) ≡ drop pc prog
unfolding onto
fetched_first [] pc h = absurd (omega (arith, h))
fetched_first (x ∷ prog) zero h = refl
fetched_first (x ∷ prog) (suc pc) h =
    let e : suc pc + 1 ≡ suc (pc + 1) = omega arith in
    rw e (fetched_first prog pc (omega (arith, h)))

fetched_none :
    (prog : List SimInstr) (pc : ℕ) (rest : List SimInstr)
    → length prog ≤ pc
    → onto (get_elem? prog pc) rest ≡ rest
unfolding onto
fetched_none [] pc rest h = refl
fetched_none (x ∷ prog) zero rest h = absurd (omega (arith, h))
fetched_none (x ∷ prog) (suc pc) rest h = fetched_none prog pc rest (omega (arith, h))

module _ (prog : List SimInstr) (p : Pipe) where
  -- What is fetched comes before what is left.
  fetched-onto : onto (get_elem? prog p.pc) (drop (advanced prog p).pc prog) ≡ drop p.pc prog
  fetched-onto = elim (Bool-cases (ltb p.pc (length prog))) [
    | inl e ↦ simp e (fetched_first prog p.pc (ground (arith, e)))
    | inr e ↦ simp e (fetched_none prog p.pc (drop p.pc prog) (ground (arith, e)))
  ]

  -- A cycle retires the oldest instruction and keeps the order of the others.
  cycle-flight :
      onto p.mem_stage (flight (cycle prog p) (drop (cycle prog p).pc prog))
      ≡ flight p (drop p.pc prog)
  unfolding onto
  cycle-flight = elim (cycle-cases prog p) [
    | inl (e, a, b) ↦ rw e refl
    | inr e ↦ rw e (
        ap (λ rest. onto p.mem_stage (onto p.ex_stage (onto p.id_stage (onto p.if_stage rest))))
          fetched-onto)
  ]

  -- Where the pipeline has stopped, nothing is left.
  stopped-flight : p.pc ≤ length prog → running prog p ≡ false → flight p (drop p.pc prog) ≡ []
  stopped-flight f h =
      let (pc, a, b, c, d) = running_none prog p f h in
      let left = drop-end prog p.pc (omega (arith, pc)) in
      onto-none p.mem_stage _ d
      ∙ onto-none p.ex_stage _ c
      ∙ onto-none p.id_stage _ b
      ∙ onto-none p.if_stage _ a
      ∙ left

retirements-flight :
    (fuel : ℕ) (prog : List SimInstr) (p : Pipe)
    → work prog p ≤ fuel
    → Counts prog p
    → retirements fuel prog p ≡ flight p (drop p.pc prog)
unfolding retirements
retirements-flight zero prog p w c = elim (Bool-cases (running prog p)) [
  | inl h ↦ absurd (omega (arith, w, cycle-work prog p c.fetched h))
  | inr h ↦ sym (stopped-flight prog p c.fetched h)
]
retirements-flight (suc fuel) prog p w c = elim (Bool-cases (running prog p)) [
  | inl h ↦ simp h (
      ap (onto p.mem_stage) (
        retirements-flight fuel prog (cycle prog p)
          (omega (arith, w, cycle-work prog p c.fetched h)) (cycle-Counts prog p c))
      ∙ cycle-flight prog p)
  | inr h ↦ simp h (sym (stopped-flight prog p c.fetched h))
]

-- A run from the start retires the program.
pub retirements-start : (prog : List SimInstr) → retirements (5 * length prog) prog start ≡ prog
unfolding start onto
retirements-start prog =
    retirements-flight (5 * length prog) prog start (omega arith)
      (record { fetched = omega arith; all = refl })
