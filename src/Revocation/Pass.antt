-- ===== src/Revocation/Pass.antt =====
-- One pass over all the tasks: `sweep_tasks`.
use mathlib.Core.Path.{ap₂}
use runix_os.Prelude.{
  ℕ, ◌+◌, ◌≤◌, ◌≡◌, ◌∙◌, sym, refl, ap, false, Option, none, some, List, [], ◌∷◌, arith, length,
}
use runix_os.Capability.{CapTable}
use runix_os.Task.{Task}
use runix_os.Revocation.{Sweep, sweep_slots, sweep_tasks}
use runix_os.Revocation.Slots.{SweptTable, SweptTable-mono, SweptTable-refl, Grows, live, Quiet}
use runix_os.Revocation.Table.{Advance, Advance-refl, Advance-trans, sweep_slots-Swiped}

-- A task whose table was swept, all else kept.
abbrev pub SweptTasks : List ℕ → List (Option Task) → List (Option Task) → Type 0
SweptTasks revoked [] [] = Unit
SweptTasks revoked [] (n ∷ ns) = ⊥
SweptTasks revoked (none ∷ os) [] = ⊥
SweptTasks revoked (some o ∷ os) [] = ⊥
SweptTasks revoked (none ∷ os) (none ∷ ns) = SweptTasks revoked os ns
SweptTasks revoked (none ∷ os) (some n ∷ ns) = ⊥
SweptTasks revoked (some o ∷ os) (none ∷ ns) = ⊥
SweptTasks revoked (some o ∷ os) (some n ∷ ns) =
    (n ≡ record o { cap_table = n.cap_table })
    × (SweptTable revoked o.cap_table n.cap_table)
    × (SweptTasks revoked os ns)

abbrev pub live_tasks : List (Option Task) → ℕ
live_tasks [] = 0
live_tasks (none ∷ tasks) = live_tasks tasks
live_tasks (some t ∷ tasks) = live t.cap_table + live_tasks tasks

abbrev pub QuietTasks : List ℕ → List (Option Task) → Type 0
QuietTasks revoked [] = Unit
QuietTasks revoked (none ∷ tasks) = QuietTasks revoked tasks
QuietTasks revoked (some t ∷ tasks) = Quiet revoked t.cap_table × QuietTasks revoked tasks

pub SweptTasks-mono :
    (xs ys : List ℕ) (os ns : List (Option Task))
    → Grows xs ys
    → SweptTasks xs os ns
    → SweptTasks ys os ns
SweptTasks-mono xs ys [] [] g h = tt
SweptTasks-mono xs ys [] (n ∷ ns) g h = absurd h
SweptTasks-mono xs ys (none ∷ os) [] g h = absurd h
SweptTasks-mono xs ys (some o ∷ os) [] g h = absurd h
SweptTasks-mono xs ys (none ∷ os) (none ∷ ns) g h = SweptTasks-mono xs ys os ns g h
SweptTasks-mono xs ys (none ∷ os) (some n ∷ ns) g h = absurd h
SweptTasks-mono xs ys (some o ∷ os) (none ∷ ns) g h = absurd h
SweptTasks-mono xs ys (some o ∷ os) (some n ∷ ns) g h =
    (h.0, SweptTable-mono xs ys o.cap_table n.cap_table g h.1, SweptTasks-mono xs ys os ns g h.2)

pub SweptTasks-refl : (revoked : List ℕ) (os : List (Option Task)) → SweptTasks revoked os os
SweptTasks-refl revoked [] = tt
SweptTasks-refl revoked (none ∷ os) = SweptTasks-refl revoked os
SweptTasks-refl revoked (some t ∷ os) =
    (refl, SweptTable-refl revoked t.cap_table, SweptTasks-refl revoked os)

-- What a pass does to the tasks and to the sweep.
pub record Passed (tasks : List (Option Task)) (w : Sweep) : Type 0 where
  pub advance : Advance w (sweep_tasks tasks w).1
  pub longer : length w.revoked ≤ length (sweep_tasks tasks w).1.revoked
  pub counted :
      live_tasks (sweep_tasks tasks w).0 + length (sweep_tasks tasks w).1.revoked
      ≡ live_tasks tasks + length w.revoked
  pub quiet :
      (sweep_tasks tasks w).1.changed ≡ false
      → ((sweep_tasks tasks w).0 ≡ tasks) × QuietTasks w.revoked tasks
  pub swept :
      (os : List (Option Task))
      → SweptTasks w.revoked os tasks
      → SweptTasks (sweep_tasks tasks w).1.revoked os (sweep_tasks tasks w).0

-- The task `t` with the table `slots`.
abbrev with_table : Task → CapTable → Task
with_table t slots = record t { cap_table = slots }

SweptTasks-cons :
    (t : Task) (tasks : List (Option Task)) (w : Sweep)
    → let w1 = (sweep_slots t.id 0 t.cap_table w).1 in
      Passed tasks w1
      → (os : List (Option Task)) → SweptTasks w.revoked os (some t ∷ tasks)
      → SweptTasks
          (sweep_tasks tasks w1).1.revoked
          os
          (some (with_table t (sweep_slots t.id 0 t.cap_table w).0) ∷ (sweep_tasks tasks w1).0)
SweptTasks-cons t tasks w more [] h = absurd h
SweptTasks-cons t tasks w more (none ∷ os) h = absurd h
SweptTasks-cons t tasks w more (some o ∷ os) h =
    let one = sweep_slots-Swiped t.id 0 t.cap_table w in
    let w1 = (sweep_slots t.id 0 t.cap_table w).1 in
    (
      ap (λ (u : Task). with_table u (sweep_slots t.id 0 t.cap_table w).0) h.0,
      SweptTable-mono w1.revoked _ o.cap_table _ more.advance.grows (one.swept o.cap_table h.1),
      more.swept os (SweptTasks-mono w.revoked w1.revoked os tasks one.advance.grows h.2),
    )

SweptTasks-none :
    (tasks : List (Option Task)) (w : Sweep)
    → Passed tasks w
    → (os : List (Option Task)) → SweptTasks w.revoked os (none ∷ tasks)
    → SweptTasks (sweep_tasks tasks w).1.revoked os (none ∷ (sweep_tasks tasks w).0)
SweptTasks-none tasks w more [] h = absurd h
SweptTasks-none tasks w more (none ∷ os) h = more.swept os h
SweptTasks-none tasks w more (some o ∷ os) h = absurd h

pub sweep_tasks-Passed : (tasks : List (Option Task)) (w : Sweep) → Passed tasks w
unfolding sweep_tasks
sweep_tasks-Passed [] w = record {
  advance = Advance-refl w;
  longer = omega arith;
  counted = refl;
  quiet = λ h. (refl, tt);
  swept = λ os h. h;
}
sweep_tasks-Passed (none ∷ tasks) w =
    let more = sweep_tasks-Passed tasks w in
    record {
      advance = more.advance;
      longer = more.longer;
      counted = more.counted;
      quiet = λ h. (ap (◌∷◌ none) (more.quiet h).0, (more.quiet h).1);
      swept = λ os h. SweptTasks-none tasks w more os h;
    }
sweep_tasks-Passed (some t ∷ tasks) w =
    let one = sweep_slots-Swiped t.id 0 t.cap_table w in
    let slots' = (sweep_slots t.id 0 t.cap_table w).0 in
    let w1 = (sweep_slots t.id 0 t.cap_table w).1 in
    let more = sweep_tasks-Passed tasks w1 in
    let w2 = (sweep_tasks tasks w1).1 in
    record {
      advance = Advance-trans w w1 w2 more.longer one.advance more.advance;
      longer = omega (arith, one.longer, more.longer);
      counted = omega (arith, one.counted, more.counted);
      quiet = λ h.
          let (kept, calm) = more.quiet h in
          let p : w2 ≡ w1 = more.advance.same h in
          let e : w1.changed ≡ false = sym (ap (λ (x : Sweep). x.changed) p) ∙ h in
          let (kept1, calm1) = one.quiet e in
          let same1 : w1 ≡ w = one.advance.same e in
          let head : with_table t slots' ≡ t = ap (with_table t) kept1 in
          (ap₂ (λ (u : Task) us. some u ∷ us) head kept, (calm1, rw same1 at calm));
      swept = λ os h. SweptTasks-cons t tasks w more os h;
    }
