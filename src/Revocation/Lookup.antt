-- ===== src/Revocation/Lookup.antt =====
-- What one knows of a slot of one task, from the predicates on all of them.
use runix_os.Prelude.{
  ℕ, zero, suc, ◌*◌, ◌≤◌, ◌≡◌, refl, ap, subst, false, Option, none, some, List, [], ◌∷◌, arith,
  length, slot_at, inl,
}
use runix_os.Capability.{Capability, CapTable, max_caps}
use runix_os.Task.{Task}
use runix_os.Revocation.{is_hit}
use runix_os.Revocation.Slots.{Swept, SweptTable, live, Quiet}
use runix_os.Revocation.Pass.{SweptTasks, live_tasks, QuietTasks}
use runix_os.Revocation.Sound.{OwnedTable, OwnedTasks}

pub table-Swept :
    (revoked : List ℕ) (os ns : CapTable)
    → SweptTable revoked os ns
    → (s : ℕ) → Swept revoked (slot_at os s) (slot_at ns s)
table-Swept revoked [] [] h s = inl refl
table-Swept revoked [] (n ∷ ns) h s = absurd h
table-Swept revoked (o ∷ os) [] h s = absurd h
table-Swept revoked (o ∷ os) (n ∷ ns) h zero = h.0
table-Swept revoked (o ∷ os) (n ∷ ns) h (suc s) = table-Swept revoked os ns h.1 s

-- A task after the sweep, found at the same place.
abbrev pub SweptAt : List ℕ → Task → List (Option Task) → ℕ → Type 0
SweptAt revoked o ns i =
    (n : Task) × (slot_at ns i ≡ some n)
    × (n ≡ record o { cap_table = n.cap_table })
    × (SweptTable revoked o.cap_table n.cap_table)

pub tasks_swept :
    (revoked : List ℕ) (os ns : List (Option Task))
    → SweptTasks revoked os ns
    → (i : ℕ) (o : Task) → slot_at os i ≡ some o
    → SweptAt revoked o ns i
tasks_swept revoked [] [] h i o e = cc
tasks_swept revoked [] (n ∷ ns) h i o e = absurd h
tasks_swept revoked (none ∷ os) [] h i o e = absurd h
tasks_swept revoked (some p ∷ os) [] h i o e = absurd h
tasks_swept revoked (none ∷ os) (some n ∷ ns) h i o e = absurd h
tasks_swept revoked (some p ∷ os) (none ∷ ns) h i o e = absurd h
tasks_swept revoked (none ∷ os) (none ∷ ns) h zero o e = cc
tasks_swept revoked (none ∷ os) (none ∷ ns) h (suc i) o e = tasks_swept revoked os ns h i o e
tasks_swept revoked (some p ∷ os) (some n ∷ ns) h zero o e =
    let q : p ≡ o = ground arith in
    subst (λ u. SweptAt revoked u (some n ∷ ns) zero) q (n, refl, h.0, h.1)
tasks_swept revoked (some p ∷ os) (some n ∷ ns) h (suc i) o e = tasks_swept revoked os ns h.2 i o e

pub tasks_empty :
    (revoked : List ℕ) (os ns : List (Option Task))
    → SweptTasks revoked os ns
    → (i : ℕ) → slot_at os i ≡ none
    → slot_at ns i ≡ none
tasks_empty revoked [] [] h i e = refl
tasks_empty revoked [] (n ∷ ns) h i e = absurd h
tasks_empty revoked (none ∷ os) [] h i e = absurd h
tasks_empty revoked (some p ∷ os) [] h i e = absurd h
tasks_empty revoked (none ∷ os) (some n ∷ ns) h i e = absurd h
tasks_empty revoked (some p ∷ os) (none ∷ ns) h i e = absurd h
tasks_empty revoked (none ∷ os) (none ∷ ns) h zero e = refl
tasks_empty revoked (none ∷ os) (none ∷ ns) h (suc i) e = tasks_empty revoked os ns h i e
tasks_empty revoked (some p ∷ os) (some n ∷ ns) h zero e = cc
tasks_empty revoked (some p ∷ os) (some n ∷ ns) h (suc i) e = tasks_empty revoked os ns h.2 i e

pub table-Quiet :
    (revoked : List ℕ) (slots : CapTable) (s : ℕ) (c : Capability)
    → Quiet revoked slots
    → slot_at slots s ≡ some c
    → is_hit revoked (some c) ≡ false
table-Quiet revoked [] s c q e = cc
table-Quiet revoked (o ∷ os) zero c q e = rw (← e) q.0
table-Quiet revoked (o ∷ os) (suc s) c q e = table-Quiet revoked os s c q.1 e

pub tasks-Quiet :
    (revoked : List ℕ) (tasks : List (Option Task)) (i : ℕ) (t : Task)
    → QuietTasks revoked tasks
    → slot_at tasks i ≡ some t
    → Quiet revoked t.cap_table
tasks-Quiet revoked [] i t q e = cc
tasks-Quiet revoked (none ∷ os) zero t q e = cc
tasks-Quiet revoked (none ∷ os) (suc i) t q e = tasks-Quiet revoked os i t q e
tasks-Quiet revoked (some u ∷ os) zero t q e =
    let p : u ≡ t = ground arith in subst (λ (v : Task). Quiet revoked v.cap_table) p q.0
tasks-Quiet revoked (some u ∷ os) (suc i) t q e = tasks-Quiet revoked os i t q.1 e

pub live_table_at :
    (slots : CapTable) (s : ℕ) (c : Capability) → slot_at slots s ≡ some c → 1 ≤ live slots
live_table_at [] s c e = cc
live_table_at (none ∷ slots) zero c e = cc
live_table_at (none ∷ slots) (suc s) c e = live_table_at slots s c e
live_table_at (some o ∷ slots) s c e = omega arith

pub live_tasks_at :
    (tasks : List (Option Task)) (i : ℕ) (t : Task)
    → slot_at tasks i ≡ some t
    → live t.cap_table ≤ live_tasks tasks
live_tasks_at [] i t e = cc
live_tasks_at (none ∷ tasks) zero t e = cc
live_tasks_at (none ∷ tasks) (suc i) t e = live_tasks_at tasks i t e
live_tasks_at (some u ∷ tasks) zero t e =
    let p : u ≡ t = ground arith in
    let q : live u.cap_table ≡ live t.cap_table = ap (λ (v : Task). live v.cap_table) p in
    omega arith
live_tasks_at (some u ∷ tasks) (suc i) t e = omega (arith, live_tasks_at tasks i t e)

live_le : (slots : CapTable) → live slots ≤ length slots
live_le [] = omega arith
live_le (none ∷ slots) = omega (arith, live_le slots)
live_le (some c ∷ slots) = omega (arith, live_le slots)

-- Every task's table has all its slots.
abbrev pub FullTables : List (Option Task) → Type 0
FullTables tasks = (i : ℕ) (t : Task) → slot_at tasks i ≡ some t → length t.cap_table ≡ max_caps

pub live_tasks_le :
    (tasks : List (Option Task)) → FullTables tasks → live_tasks tasks ≤ length tasks * max_caps
live_tasks_le [] full = omega arith
live_tasks_le (none ∷ tasks) full = omega (arith, live_tasks_le tasks (λ i t e. full (suc i) t e))
live_tasks_le (some t ∷ tasks) full =
    omega
      (arith, full 0 t refl, live_le t.cap_table, live_tasks_le tasks (λ i u e. full (suc i) u e))

module _ (owned : Capability → Type 0) (root : ℕ) where
  owned_table :
      (slots : CapTable)
      → ((s : ℕ) (c : Capability) → slot_at slots s ≡ some c → owned c)
      → OwnedTable owned root slots
  owned_table [] h = tt
  owned_table (none ∷ slots) h = (tt, owned_table slots (λ s c e. h (suc s) c e))
  owned_table (some c ∷ slots) h = (h 0 c refl, owned_table slots (λ s d e. h (suc s) d e))

  pub owned_tasks :
      (tasks : List (Option Task))
      → ((i : ℕ) (t : Task) (s : ℕ) (c : Capability)
          → slot_at tasks i ≡ some t
          → slot_at t.cap_table s ≡ some c
          → owned c)
      → OwnedTasks owned root tasks
  owned_tasks [] h = tt
  owned_tasks (none ∷ tasks) h = owned_tasks tasks (λ i t s c e f. h (suc i) t s c e f)
  owned_tasks (some t ∷ tasks) h = (
    owned_table t.cap_table (λ s c e. h 0 t s c refl e),
    owned_tasks tasks (λ i u s c e f. h (suc i) u s c e f),
  )
