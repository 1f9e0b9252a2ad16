-- ===== src/Snapshot/Tests.antt =====
-- A task loses its capabilities after a capture, and has them back after the restore.
use runix_os.Prelude.{ℕ, ◌≡◌, refl, some, none, slot_at, replicate}
use runix_os.Task.{Scheduler, get_task}
use runix_os.Snapshot.{new, capture, restore}
use runix_os.Snapshot.Restore.{restored_to, restore-capture}
use runix_os.Samples.{waiting, sender, receiver, pair_of, pair_of-IsIndexed}

abbrev wiped : Scheduler
wiped = pair_of (record sender { cap_table = replicate 32 none }) receiver

restore-capture_example :
    (n : ℕ) × (after : Scheduler) × (restore (capture waiting.sched new) wiped ≡ (some n, after))
    × ((i : ℕ) → get_task after i ≡ restored_to (slot_at waiting.sched.tasks i) (get_task wiped i))
    × (after.current_task_id ≡ some 0)
restore-capture_example =
    restore-capture waiting.sched wiped new (pair_of-IsIndexed sender receiver refl refl)
