-- ===== src/Revocation.antt =====
-- `propagate_revocation` of kernel/syscall/mod.rs: the fixpoint that revokes every capability
-- derived, through any number of grants, from one that was revoked.
pub mod Derived
pub mod Slots
pub mod Table
pub mod Pass
pub mod Sound
pub mod Fixpoint
pub mod Lookup
pub mod Complete
mod Tests
use runix_os.Prelude.{
  ℕ, zero, suc, ◌+◌, ◌*◌, Bool, true, false, Option, none, some, List, [], ◌∷◌, ◌==◌, ◌&&◌, ◌||◌,
  if◌then◌else◌, ltb, length,
}
use runix_os.Capability.{TaskId, Capability, CapTable, max_caps}
use runix_os.Audit.{AuditLog, AuditEvent, revoke_propagated, kernel_actor, push}
use runix_os.Task.{Task, Scheduler, max_tasks}

-- `MAX_TASKS * MAX_CAPS + 1`
abbrev pub revoked_ids_cap : ℕ
revoked_ids_cap = max_tasks * max_caps + 1

-- The loop's variables: `revoked[..count]` (the newest id first), the audit log, and `changed`.
pub record Sweep : Type 0 where
  pub revoked : List ℕ
  pub audit : AuditLog
  pub changed : Bool

-- `set[..n].iter().any(|&x| x == id)`
unfoldable pub is_revoked : List ℕ → ℕ → Bool
is_revoked [] id = false
is_revoked (x ∷ xs) id = x == id || is_revoked xs id

-- Whether slot content `slot` is to be revoked now.
unfoldable pub is_hit : List ℕ → Option Capability → Bool
is_hit revoked none = false
is_hit revoked (some cap) = elim cap.origin [
  | none ↦ false
  | some parent ↦ is_revoked revoked parent && ltb (length revoked) revoked_ids_cap
]

-- The sweep after `cap` in slot `s` of `task` is revoked.
unfoldable pub note_hit : TaskId → ℕ → Capability → Sweep → Sweep
note_hit task s cap w = record {
  revoked = cap.id ∷ w.revoked;
  audit = push w.audit (record {
    kind = revoke_propagated;
    actor = kernel_actor;
    target = task;
    resource = cap.resource;
    slot = s;
  });
  changed = true;
}

-- The body of the inner loop: `kernel_revoke(s)` empties the slot.
unfoldable pub sweep_slot : TaskId → ℕ → Option Capability → Sweep → Option Capability × Sweep
unfolding is_hit note_hit
sweep_slot task s none w = (none, w)
sweep_slot task s (some cap) w =
    if is_hit w.revoked (some cap) then (none, note_hit task s cap w) else (some cap, w)

-- `for s in s..MAX_CAPS`, over the slots from `s` on
unfoldable pub sweep_slots : TaskId → ℕ → CapTable → Sweep → CapTable × Sweep
sweep_slots task s [] w = ([], w)
sweep_slots task s (slot ∷ slots) w =
    let (slot', w1) = sweep_slot task s slot w in
    let (slots', w2) = sweep_slots task (s + 1) slots w1 in (slot' ∷ slots', w2)

-- `for t_idx in 0..MAX_TASKS`
unfoldable pub sweep_tasks : List (Option Task) → Sweep → List (Option Task) × Sweep
sweep_tasks [] w = ([], w)
sweep_tasks (none ∷ tasks) w = let (tasks', w') = sweep_tasks tasks w in (none ∷ tasks', w')
sweep_tasks (some t ∷ tasks) w =
    let (slots', w1) = sweep_slots t.id 0 t.cap_table w in
    let (tasks', w2) = sweep_tasks tasks w1 in (some (record t { cap_table = slots' }) ∷ tasks', w2)

-- The outer loop, on fuel: `none` means that the fuel ran out before a pass changed nothing.
unfoldable pub passes :
    ℕ → List (Option Task) → List ℕ → AuditLog → Option (List (Option Task) × List ℕ × AuditLog)
passes zero tasks revoked audit = none
passes (suc fuel) tasks revoked audit =
    let (tasks', w) =
      sweep_tasks tasks (record { revoked = revoked; audit = audit; changed = false }) in
    let rest = passes fuel tasks' w.revoked w.audit in
    if w.changed then rest else some (tasks', w.revoked, w.audit)

-- One pass for each capability that there can be, and a last one that changes nothing.
abbrev pub pass_fuel : ℕ
pass_fuel = max_tasks * max_caps + 1

unfoldable pub propagate_revocation :
    List (Option Task) → AuditLog → ℕ → Option (List (Option Task) × List ℕ × AuditLog)
unfolding passes
propagate_revocation tasks audit root_id = passes pass_fuel tasks (root_id ∷ []) audit
