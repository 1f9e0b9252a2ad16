-- ===== src/Revocation/Tests.antt =====
-- Task 0 holds the console capability, of which task 1 was granted a part: its loss takes the part.
use runix_os.Prelude.{ℕ, ◌≡◌, refl, some, Option, List}
use runix_os.Audit.{AuditLog, new}
use runix_os.Task.{Task}
use runix_os.Revocation.{propagate_revocation}
use runix_os.Revocation.Complete.{Purged, propagate_revocation_lem}
use runix_os.Samples.{waiting, sender, receiver, pair_of_tables}

propagate_revocation_lem_example :
    (after : List (Option Task)) × (revoked : List ℕ) × (audit' : AuditLog) × (propagate_revocation
        waiting.sched.tasks new 2
      ≡ some (after, revoked, audit'))
    × (Purged waiting.sched.tasks 2 after)
propagate_revocation_lem_example =
    propagate_revocation_lem waiting.sched.tasks new 2 refl
      (pair_of_tables sender receiver refl refl)
