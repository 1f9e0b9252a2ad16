-- ===== src/Sched/Select.antt =====
-- The round-robin search: which task it picks.
use runix_os.Prelude.{
  ℕ, zero, suc, ◌+◌, ◌-◌, ◌%◌, ◌≤◌, ◌<◌, ◌≡◌, ◌⊎◌, inl, inr, refl, true, false, Option, none, some,
  List, arith, Bool-cases, dec_lt,
}
use runix_os.Task.{Task, max_tasks}
use runix_os.Sched.{ready_at, find_ready}

-- What a search of the offsets `offset..offset + n` answers: the first ready one, or that none is.
abbrev pub Searched : List (Option Task) → ℕ → ℕ → ℕ → Option ℕ → Type 0
Searched tasks start offset n result =
    ((result ≡ none)
      × ((k : ℕ) → offset ≤ k → k < offset + n → ready_at tasks ((start + k) % max_tasks) ≡ false))
    ⊎ ((d : ℕ) × (result ≡ some ((start + d) % max_tasks))
        × (offset ≤ d)
        × (d < offset + n)
        × (ready_at tasks ((start + d) % max_tasks) ≡ true)
        × ((k : ℕ) → offset ≤ k → k < d → ready_at tasks ((start + k) % max_tasks) ≡ false))

pub find_ready-Searched :
    (tasks : List (Option Task)) (start offset n : ℕ)
    → Searched tasks start offset n (find_ready tasks start offset n)
unfolding find_ready
find_ready-Searched tasks start offset zero = inl (refl, λ k a b. absurd (omega arith))
find_ready-Searched tasks start offset (suc n) =
    elim (Bool-cases (ready_at tasks ((start + offset) % max_tasks))) [
      | inl e ↦
          rw e (inr (offset, refl, omega arith, omega arith, e, λ k a b. absurd (omega arith)))
      | inr e ↦ rw e (later e (find_ready-Searched tasks start (offset + 1) n))
    ]
  where
    first :
        (k : ℕ)
        → ready_at tasks ((start + offset) % max_tasks) ≡ false
        → offset ≤ k
        → (offset + 1 ≤ k → ready_at tasks ((start + k) % max_tasks) ≡ false)
        → ready_at tasks ((start + k) % max_tasks) ≡ false
    first k e a more = elim (dec_lt offset k) [
      | yes lt ↦ more (omega arith)
      | no ge ↦ let q : k ≡ offset = omega arith in rw q e
    ]

    later :
        {r : Option ℕ}
        → ready_at tasks ((start + offset) % max_tasks) ≡ false
        → Searched tasks start (offset + 1) n r
        → Searched tasks start offset (suc n) r
    later e (inl (p, all)) = inl (p, λ k a b. first k e a (λ a'. all k a' (omega arith)))
    later e (inr (d, p, lo, hi, at, before)) =
        inr (d, p, omega arith, omega arith, at, λ k a b. first k e a (λ a'. before k a' b))

-- A whole round from `start` reaches every slot: slot `j` at this offset.
abbrev pub offset_of : ℕ → ℕ → ℕ
offset_of start j = (j + max_tasks - start) % max_tasks

pub offset_of_lem :
    (start j : ℕ)
    → start < max_tasks
    → j < max_tasks
    → ((start + offset_of start j) % max_tasks ≡ j) × (offset_of start j < max_tasks)
offset_of_lem start j hs hj = omega arith

-- The round-robin search over all slots fails only if no task is ready.
pub find_ready-none :
    (tasks : List (Option Task)) (start : ℕ)
    → start < max_tasks
    → find_ready tasks start 0 max_tasks ≡ none
    → (j : ℕ) → j < max_tasks
    → ready_at tasks j ≡ false
find_ready-none tasks start hs e j hj = go (find_ready-Searched tasks start 0 max_tasks)
  where
    go :
        Searched tasks start 0 max_tasks (find_ready tasks start 0 max_tasks)
        → ready_at tasks j ≡ false
    go (inl (_, all)) =
        let (q, lt) = offset_of_lem start j hs hj in
        rw q at (all (offset_of start j) (omega arith) (omega arith))
    go (inr (d, p, _, _, _, _)) = cc

-- The round-robin search over all slots picks a ready task, the first one at or after `start`, going
-- round.
pub find_ready-some :
    (tasks : List (Option Task)) (start i : ℕ)
    → start < max_tasks
    → find_ready tasks start 0 max_tasks ≡ some i
    → (i < max_tasks)
      × (ready_at tasks i ≡ true)
      × ((j : ℕ) → j < max_tasks → ready_at tasks j ≡ true → offset_of start i ≤ offset_of start j)
find_ready-some tasks start i hs e = go (find_ready-Searched tasks start 0 max_tasks)
  where
    go :
        Searched tasks start 0 max_tasks (find_ready tasks start 0 max_tasks)
        → (i < max_tasks)
          × (ready_at tasks i ≡ true)
          × ((j : ℕ)
              → j < max_tasks
              → ready_at tasks j ≡ true
              → offset_of start i ≤ offset_of start j)
    go (inl (p, _)) = cc
    go (inr (d, p, lo, hi, at, before)) =
        let q : (start + d) % max_tasks ≡ i = ground arith in
        (
          omega arith,
          rw (← q) at,
          λ j hj r. elim (dec_lt (offset_of start j) d) [
            | yes lt ↦
                let (w, _) = offset_of_lem start j hs hj in
                let off : ready_at tasks j ≡ false =
                  rw w at (before (offset_of start j) (omega arith) lt) in
                cc
            | no ge ↦ omega arith
          ],
        )
