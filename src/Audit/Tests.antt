-- ===== src/Audit/Tests.antt =====
-- A short history.
use runix_os.Prelude.{◌≡◌, ◌++◌, arith, List, [], ◌∷◌, length, min}
use runix_os.Audit.{AuditEvent, new, push_all, dump, audit_capacity}
use runix_os.Audit.Trail.{number, dump-push_all}
use runix_os.Samples.{event}

dump-push_all_example :
    let log = push_all new (event ∷ event ∷ []) in
    (old kept : List AuditEvent) × ((event ∷ event ∷ []) ≡ old ++ kept)
    × (length kept ≡ min audit_capacity 2)
    × (dump log ≡ number 0 kept)
    × (log.total ≡ 2)
    × (log.dropped ≡ length old)
dump-push_all_example = dump-push_all (event ∷ event ∷ []) (omega arith)
