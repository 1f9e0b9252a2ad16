-- ===== src/Syscall/Revoke/Holder.antt =====
-- `current_has_grant_cap_to`: what a passed check says of the current task.
use runix_os.Prelude.{
  ℕ, zero, suc, ◌≡◌, ◌∙◌, inl, inr, refl, ap, arith, true, none, some, [], ◌∷◌, Option-cases,
  Bool-cases, slot_at,
}
use runix_os.Capability.{
  TaskId, Resource, ipc_channel, serial, memory_mapping, service, kv_entry, log_channel, fs_node,
  device, sync_obj, Capability, CapTable,
}
use runix_os.Task.{Task, Scheduler, get_task}
use runix_os.Syscall.{is_grant_to, has_grant_to, current_has_grant_cap_to}

-- The current task holds a channel to `target` with the grant right.
pub record Authority (sched : Scheduler) (target : TaskId) : Type 0 where
  pub current : TaskId
  pub holder : Task
  pub slot : ℕ
  pub cap : Capability
  pub current_is : sched.current_task_id ≡ some current
  pub holder_is : get_task sched current ≡ some holder
  pub held : slot_at holder.cap_table slot ≡ some cap
  pub may_grant : cap.grant ≡ true
  pub channel : cap.resource ≡ ipc_channel target

is_grant_to_channel :
    (target : TaskId) (cap : Capability) (r : Resource)
    → cap.resource ≡ r
    → is_grant_to target (some cap) ≡ true
    → (cap.grant ≡ true) × (cap.resource ≡ ipc_channel target)
is_grant_to_channel target cap (ipc_channel id) e h =
    let same : id ≡ target = ground arith in (ground arith, e ∙ ap ipc_channel same)
is_grant_to_channel target cap serial e h = absurd (ground arith)
is_grant_to_channel target cap (memory_mapping a b c) e h = absurd (ground arith)
is_grant_to_channel target cap (service a) e h = absurd (ground arith)
is_grant_to_channel target cap (kv_entry a b c) e h = absurd (ground arith)
is_grant_to_channel target cap (log_channel a b c) e h = absurd (ground arith)
is_grant_to_channel target cap (fs_node a b c) e h = absurd (ground arith)
is_grant_to_channel target cap (device a b c) e h = absurd (ground arith)
is_grant_to_channel target cap (sync_obj a) e h = absurd (ground arith)

has_grant_to_slot :
    (target : TaskId) (slots : CapTable)
    → has_grant_to target slots ≡ true
    → (s : ℕ) × (cap : Capability) × (slot_at slots s ≡ some cap)
      × (cap.grant ≡ true)
      × (cap.resource ≡ ipc_channel target)
unfolding has_grant_to
has_grant_to_slot target [] h = cc
has_grant_to_slot target (none ∷ slots) h =
    let (s, cap, at, g, c) = has_grant_to_slot target slots h in (suc s, cap, at, g, c)
has_grant_to_slot target (some cap ∷ slots) h = elim (Bool-cases (is_grant_to target (some cap))) [
  | inl e ↦
      let (g, c) = is_grant_to_channel target cap cap.resource refl e in (zero, cap, refl, g, c)
  | inr e ↦
      let (s, d, at, g, c) = has_grant_to_slot target slots (ground arith) in (suc s, d, at, g, c)
]

pub authority :
    (sched : Scheduler) (target : TaskId)
    → current_has_grant_cap_to sched target ≡ true
    → Authority sched target
unfolding current_has_grant_cap_to
authority sched target h = elim (Option-cases sched.current_task_id) [
  | inl e ↦ absurd (ground arith)
  | inr (id, e) ↦ elim (Option-cases (get_task sched id)) [
    | inl q ↦ absurd (ground arith)
    | inr (t, q) ↦
        let (s, cap, at, g, c) = has_grant_to_slot target t.cap_table (ground arith) in
        record {
          current = id;
          holder = t;
          slot = s;
          cap = cap;
          current_is = e;
          holder_is = q;
          held = at;
          may_grant = g;
          channel = c;
        }
  ]
]
