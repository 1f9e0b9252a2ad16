-- ===== src/Arch/Pipeline/Bounds.antt =====
-- The pipeline simulation ends, retires every instruction once, and counts its cycles exactly.
use runix_os.Prelude.{
  ℕ, zero, suc, ◌+◌, ◌*◌, ◌-◌, ◌<◌, ◌≤◌, ◌≡◌, ◌⊎◌, inl, inr, refl, arith, true, false, Bool-cases,
  Option, none, some, Option-cases, List, [], ◌∷◌, if◌then◌else◌, ltb, length, get_elem?,
  get_elem?-lt_some, is_some,
}
use runix_os.Arch.Pipeline.{SimInstr, Pipe, running, reads_from, raw_hazard, retired, cycle}

-- How many rounds the instructions that are not retired can still take.
abbrev pub work : List SimInstr → Pipe → ℕ
work prog p =
    5 * (length prog - p.pc)
    + 4 * retired p.if_stage
    + 3 * retired p.id_stage
    + 2 * retired p.ex_stage
    + retired p.mem_stage

-- The instructions in flight and the ones retired are those fetched.
pub record Counts (prog : List SimInstr) (p : Pipe) : Type 0 where
  pub fetched : p.pc ≤ length prog
  pub all :
      p.stats.instrs
        + retired p.if_stage
        + retired p.id_stage
        + retired p.ex_stage
        + retired p.mem_stage
      ≡ p.pc

retired_none : (o : Option SimInstr) → is_some o ≡ false → retired o ≡ 0
retired_none none h = refl
retired_none (some i) h = absurd (cc h)

retired_some : (o : Option SimInstr) → is_some o ≡ true → retired o ≡ 1
retired_some none h = absurd (cc h)
retired_some (some i) h = refl

retired_fetch : (prog : List SimInstr) (pc : ℕ) → pc < length prog → retired (get_elem? prog pc) ≡ 1
retired_fetch prog pc h = let (i, e) = get_elem?-lt_some prog pc h in rw e refl

retired_end : (prog : List SimInstr) (pc : ℕ) → length prog ≤ pc → retired (get_elem? prog pc) ≡ 0
retired_end [] pc h = refl
retired_end (x ∷ xs) zero h = absurd (omega arith)
retired_end (x ∷ xs) (suc pc) h = retired_end xs pc (omega arith)

-- A stall needs an instruction in the decode stage and one in the execute stage.
raw_hazard_stages :
    (p : Pipe) → raw_hazard p ≡ true → (retired p.id_stage ≡ 1) × (retired p.ex_stage ≡ 1)
unfolding raw_hazard reads_from
raw_hazard_stages p h = elim (Option-cases p.id_stage) [
  | inl e ↦ absurd (cc (simp (raw_hazard, e) at h))
  | inr (i, e) ↦ elim (Option-cases p.ex_stage) [
    | inl f ↦ absurd (cc (simp (raw_hazard, reads_from, e, f) at h))
    | inr (j, f) ↦ (simp e, simp f)
  ]
]

module _ (prog : List SimInstr) (p : Pipe) where
  -- The state after a cycle with a stall.
  abbrev pub stalled : Pipe
  stalled = record p {
    stats = record {
      instrs = p.stats.instrs + retired p.mem_stage;
      cycles = p.stats.cycles + 1;
      stalls = p.stats.stalls + 1;
    };
    ex_stage = none;
    mem_stage = p.ex_stage;
  }

  -- The state after a cycle in which every stage moves on.
  abbrev pub advanced : Pipe
  advanced = record {
    stats = record {
      instrs = p.stats.instrs + retired p.mem_stage;
      cycles = p.stats.cycles + 1;
      stalls = p.stats.stalls;
    };
    if_stage = get_elem? prog p.pc;
    id_stage = p.if_stage;
    ex_stage = p.id_stage;
    mem_stage = p.ex_stage;
    pc = if ltb p.pc (length prog) then p.pc + 1 else p.pc;
  }

  pub cycle-cases :
      ((cycle prog p ≡ stalled) × (retired p.id_stage ≡ 1) × (retired p.ex_stage ≡ 1))
      ⊎ (cycle prog p ≡ advanced)
  unfolding cycle
  cycle-cases = elim (Bool-cases (raw_hazard p)) [
    | inl e ↦ let (a, b) = raw_hazard_stages p e in inl (simp (cycle, e), a, b)
    | inr e ↦ inr (simp (cycle, e))
  ]

  -- The fetch of a cycle: the next instruction, or none is left.
  pub fetch :
      p.pc ≤ length prog
      → ((p.pc < length prog) × (advanced.pc ≡ p.pc + 1) × (retired advanced.if_stage ≡ 1))
        ⊎ ((p.pc ≡ length prog) × (advanced.pc ≡ p.pc) × (retired advanced.if_stage ≡ 0))
  fetch h = elim (Bool-cases (ltb p.pc (length prog))) [
    | inl e ↦
        let lt : p.pc < length prog = ground (arith, e) in
        inl (lt, simp e, retired_fetch prog p.pc lt)
    | inr e ↦
        let ge : length prog ≤ p.pc = ground (arith, e) in
        inr (omega (arith, h, ge), simp e, retired_end prog p.pc ge)
  ]

  -- In a pipeline that runs, something is to fetch or in flight.
  pub running_some :
      running prog p ≡ true
      → (p.pc < length prog)
        ⊎ (0 < retired p.if_stage + retired p.id_stage + retired p.ex_stage + retired p.mem_stage)
  running_some h = elim (Bool-cases (ltb p.pc (length prog))) [
    | inl e ↦ inl (ground (arith, e))
    | inr e ↦ inr (elim (Bool-cases (is_some p.if_stage)) [
      | inl a ↦ omega (arith, retired_some p.if_stage a)
      | inr a ↦ elim (Bool-cases (is_some p.id_stage)) [
        | inl b ↦ omega (arith, retired_some p.id_stage b)
        | inr b ↦ elim (Bool-cases (is_some p.ex_stage)) [
          | inl c ↦ omega (arith, retired_some p.ex_stage c)
          | inr c ↦ omega (arith, retired_some p.mem_stage (cc (simp (e, a, b, c) at h)))
        ]
      ]
    ])
  ]

  -- Where it does not run, nothing is left anywhere.
  pub running_none :
      p.pc ≤ length prog
      → running prog p ≡ false
      → (p.pc ≡ length prog)
        × (retired p.if_stage ≡ 0)
        × (retired p.id_stage ≡ 0)
        × (retired p.ex_stage ≡ 0)
        × (retired p.mem_stage ≡ 0)
  running_none f h = elim (Bool-cases (ltb p.pc (length prog))) [
    | inl e ↦ absurd (cc (simp e at h))
    | inr e ↦ elim (Bool-cases (is_some p.if_stage)) [
      | inl a ↦ absurd (cc (simp (e, a) at h))
      | inr a ↦ elim (Bool-cases (is_some p.id_stage)) [
        | inl b ↦ absurd (cc (simp (e, a, b) at h))
        | inr b ↦ elim (Bool-cases (is_some p.ex_stage)) [
          | inl c ↦ absurd (cc (simp (e, a, b, c) at h))
          | inr c ↦ (
            ground (arith, e, f),
            retired_none p.if_stage a,
            retired_none p.id_stage b,
            retired_none p.ex_stage c,
            retired_none p.mem_stage (cc (simp (e, a, b, c) at h)),
          )
        ]
      ]
    ]
  ]

  -- Every cycle of a pipeline that runs takes work away.
  pub cycle-work :
      p.pc ≤ length prog → running prog p ≡ true → work prog (cycle prog p) < work prog p
  cycle-work f h = elim cycle-cases [
    | inl (e, a, b) ↦ rw e (omega (arith, a, b))
    | inr e ↦ elim (fetch f) [
      | inl (lt, n, i) ↦ rw e (omega (arith, lt, n, i))
      | inr (q, n, i) ↦ elim (running_some h) [
        | inl lt ↦ absurd (omega (arith, lt, q))
        | inr flight ↦ rw e (omega (arith, flight, q, n, i))
      ]
    ]
  ]

  pub cycle-Counts : Counts prog p → Counts prog (cycle prog p)
  cycle-Counts c = elim cycle-cases [
    | inl (e, a, b) ↦ rw e (record { fetched = c.fetched; all = omega (arith, c.all) })
    | inr e ↦ elim (fetch c.fetched) [
      | inl (lt, n, i) ↦
          rw e (record { fetched = omega (arith, lt, n); all = omega (arith, c.all, n, i) })
      | inr (q, n, i) ↦
          rw e (record { fetched = omega (arith, q, n); all = omega (arith, c.all, n, i) })
    ]
  ]
