-- ===== src/Audit.antt =====
-- kernel/process/audit.rs: the kernel's ring of capability events. `push` stands for `record` too,
-- which takes the lock and pushes; `dump` gives the numbered events that the source prints.
pub mod Trail
mod Tests
use runix_os.Prelude.{
  ℕ, zero, suc, ◌+◌, ◌%◌, Option, none, some, List, [], ◌∷◌, if◌then◌else◌, ltb, set, slot_at,
  replicate, add_word, word_max, is_some,
}
use runix_os.Capability.{TaskId, Resource}

pub data AuditKind : Type 0 where
  grant revoke revoke_propagated : AuditKind

pub record AuditEvent : Type 0 where
  pub kind : AuditKind
  pub actor : TaskId
  pub target : TaskId
  pub resource : Resource
  pub slot : ℕ

abbrev pub audit_capacity : ℕ
audit_capacity = 64

-- `TaskId(usize::MAX)`, the actor of the kernel's own actions
abbrev pub kernel_actor : TaskId
kernel_actor = word_max

pub record AuditLog : Type 0 where
  pub buffer : List (Option AuditEvent)
  pub next : ℕ
  pub total : ℕ
  pub dropped : ℕ

unfoldable pub new : AuditLog
new = record { buffer = replicate audit_capacity none; next = 0; total = 0; dropped = 0 }

unfoldable pub push : AuditLog → AuditEvent → AuditLog
push log ev = record {
  buffer = set log.buffer log.next (some ev);
  next = add_word log.next 1 % audit_capacity;
  total = add_word log.total 1;
  dropped = if is_some (slot_at log.buffer log.next) then add_word log.dropped 1 else log.dropped;
}

-- The loop of `dump` over `i..i + n`.
unfoldable pub walk : AuditLog → ℕ → ℕ → ℕ → List (ℕ × AuditEvent)
walk log start i zero = []
walk log start i (suc n) =
    let rest = walk log start (i + 1) n in
    elim (slot_at log.buffer ((start + i) % audit_capacity)) [
      | none ↦ rest
      | some ev ↦ (i, ev) ∷ rest
    ]

unfoldable pub dump : AuditLog → List (ℕ × AuditEvent)
unfolding walk
dump log =
    let wrapped = ltb audit_capacity log.total in
    walk log (if wrapped then log.next else 0) 0 (if wrapped then audit_capacity else log.total)

-- A history of events, oldest first.
unfoldable pub push_all : AuditLog → List AuditEvent → AuditLog
push_all log [] = log
push_all log (ev ∷ evs) = push_all (push log ev) evs
