-- ===== src/Capability.antt =====
-- kernel/process/capability.rs: resources, capabilities, rights attenuation and a task's table.
-- `NEXT_CAP_ID` is an argument and a result of what stamps an identity. The calls of `log_trace`,
-- which only feed the shell's trace viewer, are left out.
pub mod Table
pub mod Rights
mod Tests
use runix_os.Prelude.{
  ℕ, ◌≡◌, Bool, true, false, ◌&&◌, Option, none, some, List, if◌then◌else◌, add_word, set, slot_at,
  first_free, replicate, ltb, not,
}

-- `TaskId(pub usize)`
abbrev pub TaskId : Type 0
TaskId = ℕ

pub data Resource : Type 0 where
  serial : Resource
  ipc_channel : TaskId → Resource
  -- start_vaddr, size, writeable
  memory_mapping : ℕ → ℕ → Bool → Resource
  service : ℕ → Resource
  -- the slot, kind, mount or id, then readable and writable
  kv_entry log_channel fs_node device : ℕ → Bool → Bool → Resource
  sync_obj : ℕ → Resource

pub record Capability : Type 0 where
  pub resource : Resource
  pub read : Bool
  pub write : Bool
  pub grant : Bool
  pub sealed : Bool
  pub id : ℕ
  pub origin : Option ℕ

pub record RightsMask : Type 0 where
  pub read : Bool
  pub write : Bool
  pub grant : Bool

-- `Err(())` is `none`.
unfoldable pub attenuate : Capability → RightsMask → Option Capability
attenuate cap requested =
    if cap.grant
    then (some (record {
      resource = cap.resource;
      read = cap.read && requested.read;
      write = cap.write && requested.write;
      grant = cap.grant && requested.grant;
      sealed = false;
      id = 0;
      origin = none;
    }))
    else none

abbrev pub max_caps : ℕ
max_caps = 32

-- `[Option<Capability>; MAX_CAPS]`
abbrev pub CapTable : Type 0
CapTable = List (Option Capability)

unfoldable pub new : CapTable
new = replicate max_caps none

-- `NEXT_CAP_ID.fetch_add(1)`: the identity handed out, and the counter after it.
unfoldable pub next_cap_id : ℕ → ℕ × ℕ
next_cap_id counter = (counter, add_word counter 1)

-- The slot (`none` for `Err(())`), the table and the counter. A full table costs an identity too.
unfoldable pub insert : ℕ → CapTable → Capability → Option ℕ × CapTable × ℕ
unfolding next_cap_id
insert counter slots cap =
    let (id, counter') = next_cap_id counter in
    elim (first_free slots) [
      | none ↦ (none, slots, counter')
      | some idx ↦ (some idx, set slots idx (some (record cap { id = id })), counter')
    ]

unfoldable pub insert_sealed : ℕ → CapTable → Capability → Option ℕ × CapTable × ℕ
unfolding insert
insert_sealed counter slots cap = insert counter slots (record cap { sealed = true })

unfoldable pub get : CapTable → ℕ → Option Capability
get slots idx = if ltb idx max_caps then slot_at slots idx else none

-- What `remove` answers: `Err(())` for a sealed slot, otherwise `Ok` of what the slot held.
pub data Removal : Type 0 where
  refused : Removal
  removed : Option Capability → Removal

unfoldable pub remove : CapTable → ℕ → Removal × CapTable
remove slots idx =
    if ltb idx max_caps
    then (elim (slot_at slots idx) [
      | none ↦ (removed none, set slots idx none)
      | some cap ↦ if cap.sealed then (refused, slots) else (removed (some cap), set slots idx none)
    ])
    else (removed none, slots)

unfoldable pub kernel_revoke : CapTable → ℕ → Option Capability × CapTable
kernel_revoke slots idx =
    if ltb idx max_caps then (slot_at slots idx, set slots idx none) else (none, slots)
