-- ===== src/Sched/Burial.antt =====
-- The first half of `terminate_current_task`: what every slot holds once the current task is
-- terminated and its senders are woken.
use runix_os.Prelude.{
  ℕ, ◌<◌, ◌≡◌, ◌≢◌, ◌∙◌, inl, inr, refl, sym, true, Option, none, some, List, arith, length,
  slot_at, Option-cases, dec_lt, Bool-cases, ltb, length-set, if◌then◌else◌, ◌==◌, [], ◌∷◌, zero,
  suc, ap, ltb-false, lt→ltb,
}
use runix_os.Capability.{TaskId}
use runix_os.Capability.Table.{slot_at-some_lt, slot_at-set_self, slot_at-set_ne}
use runix_os.Task.{Task, Scheduler, max_tasks, terminated, is_running}
use runix_os.Task.Lookup.{IsIndexed}
use runix_os.Sched.{update_slot, wake_sender, wake_senders, bury_current}
use runix_os.Sched.Invariant.{IsSound, IsIdle}

pub slot_at-wake_senders :
    (dead : TaskId) (tasks : List (Option Task)) (i : ℕ)
    → slot_at (wake_senders dead tasks) i ≡ wake_sender dead (slot_at tasks i)
slot_at-wake_senders dead [] i = refl
slot_at-wake_senders dead (t ∷ tasks) zero = refl
slot_at-wake_senders dead (t ∷ tasks) (suc i) = slot_at-wake_senders dead tasks i

length-wake_senders :
    (dead : TaskId) (tasks : List (Option Task)) → length (wake_senders dead tasks) ≡ length tasks
length-wake_senders dead [] = refl
length-wake_senders dead (t ∷ tasks) = ap suc (length-wake_senders dead tasks)

abbrev pub ended : Task → Task
ended t = record t { state = terminated }

slot_at-update_slot :
    (tasks : List (Option Task)) (j i : ℕ) (f : Task → Task)
    → slot_at (update_slot tasks j f) i
      ≡ (elim (slot_at tasks i) [ none ↦ none | some t ↦ if i == j then some (f t) else some t ])
slot_at-update_slot tasks j i f = elim (Option-cases (slot_at tasks j)) [
  | inl e ↦ rw (e, update_slot) (ground (arith, e))
  | inr (t, e) ↦ ground (
    arith,
    e,
    slot_at-some_lt tasks j e,
    slot_at-set_self tasks j (some (f t)),
    slot_at-set_ne tasks j i (some (f t)),
  )
]

-- What `bury_current` makes of the slot of another task, and of the dying one's.
abbrev pub buried_slot : TaskId → ℕ → Option Task → Option Task
buried_slot dead i none = none
buried_slot dead i (some t) = wake_sender dead (if i == dead then some (ended t) else some t)

pub slot_at-bury_current :
    (s : Scheduler) (dead i : ℕ)
    → IsIndexed s
    → s.current_task_id ≡ some dead
    → slot_at (bury_current s).tasks i ≡ buried_slot dead i (slot_at s.tasks i)
unfolding bury_current
slot_at-bury_current s dead i v c = elim (dec_lt dead max_tasks) [
  | yes lt ↦
      rw (c, bury_current, lt→ltb dead max_tasks lt)
        (slot_at-wake_senders dead (update_slot s.tasks dead ended) i
          ∙ rw (slot_at-update_slot s.tasks dead i ended) (ground arith))
  | no out ↦
      rw (c, bury_current, ltb-false dead max_tasks (omega arith))
        (slot_at-wake_senders dead s.tasks i ∙ elim (Option-cases (slot_at s.tasks i)) [
          | inl e ↦ rw (e, buried_slot)
          | inr (t, e) ↦
              let lt : i < max_tasks = omega (arith, v.slots, slot_at-some_lt s.tasks i e) in
              ground arith
        ])
]

length-bury_current : (s : Scheduler) → length (bury_current s).tasks ≡ length s.tasks
unfolding bury_current
length-bury_current s = elim (Option-cases s.current_task_id) [
  | inl c ↦ rw (c, bury_current)
  | inr (dead, c) ↦
      rw (c, bury_current)
        (length-wake_senders dead
            (if ltb dead max_tasks then update_slot s.tasks dead ended else s.tasks)
          ∙ elim (Option-cases (slot_at s.tasks dead)) [
            | inl e ↦ ground (arith, e)
            | inr (t, e) ↦ ground (arith, e, length-set s.tasks dead (some (ended t)))
          ])
]

current-bury_current : (s : Scheduler) → (bury_current s).current_task_id ≡ s.current_task_id
unfolding bury_current
current-bury_current s = ground arith

-- A task that is found after the burial was there before, and runs only if it did and is another.
buried_found :
    (dead : TaskId) (i : ℕ) (o : Option Task) (t : Task)
    → buried_slot dead i o ≡ some t
    → (u : Task) × (o ≡ some u)
      × (t.id ≡ u.id)
      × (is_running t.state ≡ true → (i ≢ dead) × (is_running u.state ≡ true))
buried_found dead i none t e = cc
buried_found dead i (some u) t e = (u, refl, ground arith, λ r. (λ p. ground arith, ground arith))

-- With the current task buried no task runs, and every task is still in its place.
pub bury_current-IsIdle : (s : Scheduler) → IsSound s → IsIdle (bury_current s)
unfolding bury_current
bury_current-IsIdle s v = elim (Option-cases s.current_task_id) [
  | inl c ↦
      rw (c, bury_current)
        (record {
          indexed = v.indexed;
          idle = λ i t q. elim (Bool-cases (is_running t.state)) [
            | inl r ↦ let here = v.single i t q r in absurd (ground arith)
            | inr r ↦ r
          ];
        })
  | inr (dead, c) ↦ record {
    indexed = record {
      slots = length-bury_current s ∙ v.indexed.slots;
      id_is = λ i t q. let (u, at, id, _) = found dead c i t q in id ∙ v.indexed.id_is i u at;
    };
    idle = λ i t q.
        let (u, at, _, keep) = found dead c i t q in
        elim (Bool-cases (is_running t.state)) [
          | inl r ↦
              let (ne, r') = keep r in let here = v.single i u at r' in absurd (ne (ground arith))
          | inr r ↦ r
        ];
  }
]
  where
    found :
        (dead : TaskId)
        → s.current_task_id ≡ some dead
        → (i : ℕ) (t : Task) → slot_at (bury_current s).tasks i ≡ some t
        → (u : Task) × (slot_at s.tasks i ≡ some u)
          × (t.id ≡ u.id)
          × (is_running t.state ≡ true → (i ≢ dead) × (is_running u.state ≡ true))
    found dead c i t q =
        buried_found dead i (slot_at s.tasks i) t
          (sym (slot_at-bury_current s dead i v.indexed c) ∙ q)
