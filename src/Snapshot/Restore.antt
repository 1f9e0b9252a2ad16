-- ===== src/Snapshot/Restore.antt =====
-- What a restore brings back.
use runix_os.Prelude.{
  ℕ, zero, suc, ◌+◌, ◌<◌, ◌≡◌, ◌∙◌, sym, ap, refl, subst, arith, Option, none, some, List, [], ◌∷◌,
  map, ==_self, add_word, Option-cases, inl, inr, slot_at,
}
use runix_os.Task.{Task, Scheduler, get_task, update_task}
use runix_os.Task.Lookup.{IsIndexed, get_task-update_task, update_task_missing}
use runix_os.Ipc.Authority.{others_kept}
use runix_os.Syscall.Grant.{update_current}
use runix_os.Snapshot.{
  TaskCheckpoint, SystemSnapshot, checkpoint, capture, captured, roll_back, restore_tasks, restore,
  checksum,
}

-- A live task after the restore of what the snapshot has for it.
abbrev rolled_back : Option TaskCheckpoint → Option Task → Option Task
rolled_back none live = live
rolled_back (some cp) none = none
rolled_back (some cp) (some t) = some (roll_back cp t)

-- Checkpoints in the slots of their ids, counted from `k`.
abbrev Indexed : ℕ → List (Option TaskCheckpoint) → Type 0
Indexed k cps = (i : ℕ) (cp : TaskCheckpoint) → slot_at cps i ≡ some cp → cp.id ≡ k + i

update_at :
    (s : Scheduler) (cp : TaskCheckpoint)
    → get_task (update_task s cp.id (roll_back cp)) cp.id ≡ rolled_back (some cp) (get_task s cp.id)
update_at s cp = elim (Option-cases (get_task s cp.id)) [
  | inl e ↦ rw (update_task_missing s cp.id (roll_back cp) e, e) refl
  | inr (t, e) ↦
      get_task-update_task s cp.id cp.id (roll_back cp) t e refl ∙ simp (==_self cp.id, e)
]

-- The loop from slot `k` on: the tasks below `k` are kept.
below_kept :
    (cps : List (Option TaskCheckpoint)) (k n : ℕ) (s : Scheduler)
    → Indexed k cps
    → (j : ℕ) → j < k
    → get_task (restore_tasks cps n s).1 j ≡ get_task s j
unfolding restore_tasks
below_kept [] k n s ix j lt = refl
below_kept (none ∷ cps) k n s ix j lt =
    below_kept cps (k + 1) n s (λ i cp e. omega (arith, ix (suc i) cp e)) j (omega arith)
below_kept (some cp ∷ cps) k n s ix j lt =
    let at : cp.id ≡ k + 0 = ix 0 cp refl in
    below_kept cps (k + 1) _ (update_task s cp.id (roll_back cp))
      (λ i c e. omega (arith, ix (suc i) c e)) j (omega arith)
    ∙ others_kept s cp.id j (roll_back cp) (λ t. refl) (omega arith)

-- The tasks from `k` on are rolled back to their checkpoints.
above_rolled :
    (cps : List (Option TaskCheckpoint)) (k n : ℕ) (s : Scheduler)
    → Indexed k cps
    → (i : ℕ)
    → get_task (restore_tasks cps n s).1 (k + i) ≡ rolled_back (slot_at cps i) (get_task s (k + i))
unfolding restore_tasks
above_rolled [] k n s ix i = refl
above_rolled (none ∷ cps) k n s ix zero =
    below_kept cps (k + 1) n s (λ i cp e. omega (arith, ix (suc i) cp e)) (k + 0) (omega arith)
above_rolled (none ∷ cps) k n s ix (suc i) =
    let p : k + 1 + i ≡ k + suc i = omega arith in
    rw (← p) (above_rolled cps (k + 1) n s (λ i cp e. omega (arith, ix (suc i) cp e)) i)
above_rolled (some cp ∷ cps) k n s ix zero =
    let at : cp.id ≡ k + 0 = ix 0 cp refl in
    below_kept cps (k + 1) _ (update_task s cp.id (roll_back cp))
      (λ i c e. omega (arith, ix (suc i) c e)) (k + 0) (omega arith)
    ∙ subst
        (λ j.
          get_task (update_task s cp.id (roll_back cp)) j ≡ rolled_back (some cp) (get_task s j))
        at (update_at s cp)
above_rolled (some cp ∷ cps) k n s ix (suc i) =
    let at : cp.id ≡ k + 0 = ix 0 cp refl in
    let p : k + 1 + i ≡ k + suc i = omega arith in
    let s1 = update_task s cp.id (roll_back cp) in
    let n1 : ℕ = elim (get_task s cp.id) [ none ↦ n | some _ ↦ add_word n 1 ] in
    let other = others_kept s cp.id (k + suc i) (roll_back cp) (λ t. refl) (omega arith) in
    subst
      (λ j. get_task (restore_tasks cps n1 s1).1 j ≡ rolled_back (slot_at cps i) (get_task s1 j)) p
      (above_rolled cps (k + 1) n1 s1 (λ i c e. omega (arith, ix (suc i) c e)) i)
    ∙ ap (rolled_back (slot_at cps i)) other

restored_current :
    (cps : List (Option TaskCheckpoint)) (n : ℕ) (s : Scheduler)
    → (restore_tasks cps n s).1.current_task_id ≡ s.current_task_id
unfolding restore_tasks
restored_current [] n s = refl
restored_current (none ∷ cps) n s = restored_current cps n s
restored_current (some cp ∷ cps) n s =
    restored_current cps _ (update_task s cp.id (roll_back cp))
    ∙ update_current s cp.id (roll_back cp)

slot_at-checkpoint :
    (tasks : List (Option Task)) (i : ℕ)
    → slot_at (map checkpoint tasks) i ≡ checkpoint (slot_at tasks i)
unfolding checkpoint
slot_at-checkpoint [] i = refl
slot_at-checkpoint (o ∷ tasks) zero = refl
slot_at-checkpoint (o ∷ tasks) (suc i) = slot_at-checkpoint tasks i

checkpoint_id :
    (o : Option Task) (cp : TaskCheckpoint)
    → checkpoint o ≡ some cp
    → (t : Task) × (o ≡ some t) × (t.id ≡ cp.id)
unfolding checkpoint
checkpoint_id none cp e = cc
checkpoint_id (some t) cp e = (t, refl, ground arith)

captured-Indexed : (s : Scheduler) → IsIndexed s → Indexed 0 (map checkpoint s.tasks)
captured-Indexed s v i cp e =
    let (t, at, same) =
      checkpoint_id (slot_at s.tasks i) cp (sym (slot_at-checkpoint s.tasks i) ∙ e) in
    omega (arith, same, v.id_is i t at)

-- What a restore makes of a live task, by the task that was in its slot at the capture.
abbrev pub restored_to : Option Task → Option Task → Option Task
restored_to none live = live
restored_to (some old) none = none
restored_to (some old) (some t) = some (record t {
  state = old.state;
  cap_table = old.cap_table;
  ipc_buffer = old.ipc_buffer;
  msg_queue = old.msg_queue;
})

rolled_back-checkpoint :
    (old live : Option Task) → rolled_back (checkpoint old) live ≡ restored_to old live
unfolding checkpoint
rolled_back-checkpoint none live = refl
rolled_back-checkpoint (some old) none = refl
rolled_back-checkpoint (some old) (some t) = refl

-- A snapshot that was captured from a sound state passes its integrity check, and restoring it,
-- onto whatever the tasks have become, rolls every task that is still there back to its captured
-- state, table, buffer and queue, keeps its other fields, brings no missing task back, changes
-- no task that the snapshot does not have, and leaves the current task as it is.
pub restore-capture :
    (s s' : Scheduler) (snap : SystemSnapshot)
    → IsIndexed s
    → (n : ℕ) × (after : Scheduler) × (restore (capture s snap) s' ≡ (some n, after))
      × ((i : ℕ) → get_task after i ≡ restored_to (slot_at s.tasks i) (get_task s' i))
      × (after.current_task_id ≡ s'.current_task_id)
unfolding restore capture
restore-capture s s' snap v =
    let cps = map checkpoint s.tasks in
    (
      (restore_tasks cps 0 s').0,
      (restore_tasks cps 0 s').1,
      simp (restore, capture, ==_self (checksum (captured s snap))),
      λ i.
          subst (λ c. get_task (restore_tasks cps 0 s').1 i ≡ rolled_back c (get_task s' i))
            (slot_at-checkpoint s.tasks i)
            (let p : 0 + i ≡ i = omega arith in
              rw p at (above_rolled cps 0 0 s' (captured-Indexed s v) i))
          ∙ rolled_back-checkpoint (slot_at s.tasks i) (get_task s' i),
      restored_current cps 0 s',
    )
