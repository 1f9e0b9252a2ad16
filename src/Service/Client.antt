-- ===== src/Service/Client.antt =====
-- kernel/shell/mod.rs, the shell's side of the services: the channel it finds in its table, and the
-- payloads of its requests, which are sent whole.
use runix_os.Prelude.{
  ℕ, ◌≤◌, ◌<◌, ◌≡◌, ◌∙◌, arith, min, Bool, false, Option, none, some, List, ◌==◌, set, replicate,
  take, length, byte_at, slice_of, find_index, copy_at, length-copy_at, byte_at-copy_at,
  slice_of-copy_at, slice_of-copy_at_before, slice_of-set, length-set, get_or-set_self,
  get_or-set_ne, take_all,
}
use runix_os.Capability.{TaskId, Capability, CapTable, ipc_channel}

abbrev pub is_channel_to : TaskId → Option Capability → Bool
is_channel_to service none = false
is_channel_to service (some cap) = elim cap.resource [
  | ipc_channel task ↦ task == service
  | _ ↦ false
]

-- The slot of the shell's channel to a service; without one a request is an error.
unfoldable pub service_channel : TaskId → CapTable → Option ℕ
service_channel service slots = find_index (is_channel_to service) slots

unfoldable pub fs_payload : ℕ → ℕ → List ℕ → List ℕ → List ℕ
fs_payload op mount path bytes =
    let name_len = min (length path) 30 in
    let data_len = min (length bytes) 94 in
    let p1 = set (set (set (replicate 128 0) 0 op) 1 mount) 2 name_len in
    let p2 = copy_at p1 3 (take name_len path) in
    copy_at (set p2 33 data_len) 34 (take data_len bytes)

unfoldable pub dev_payload : ℕ → ℕ → List ℕ → List ℕ
dev_payload op dev_id bytes =
    let write_len = min (length bytes) 120 in
    copy_at (set (set (set (replicate 128 0) 0 op) 1 dev_id) 2 write_len) 3 (take write_len bytes)

unfoldable pub sync_payload : ℕ → ℕ → ℕ → ℕ → List ℕ
sync_payload op obj_id is_mutex count =
    set (set (set (set (replicate 128 0) 0 op) 1 obj_id) 2 is_mutex) 3 count

-- The fields that the file service reads from a request's payload.
pub record IsRequest (payload : List ℕ) (op mount : ℕ) (path bytes : List ℕ) : Type 0 where
  pub whole : length payload ≡ 128
  pub op_is : byte_at payload 0 ≡ op
  pub mount_is : byte_at payload 1 ≡ mount
  pub name_len_is : byte_at payload 2 ≡ length path
  pub name_is : slice_of payload 3 (length path) ≡ path
  pub data_len_is : byte_at payload 33 ≡ length bytes
  pub data_is : slice_of payload 34 (length bytes) ≡ bytes

module _ (op mount : ℕ) (path bytes : List ℕ) (short : length path ≤ 30)
    (small : length bytes ≤ 94) where
  abbrev start : List ℕ
  start = set (set (set (replicate 128 0) 0 op) 1 mount) 2 (length path)

  abbrev named : List ℕ
  named = copy_at start 3 path

  named_whole : length named ≡ 128
  named_whole = length-copy_at start 3 path (omega (arith, short))

  filled_whole : length (set named 33 (length bytes)) ≡ 128
  filled_whole = length-set named 33 (length bytes) ∙ named_whole

  fs_payload_exact : fs_payload op mount path bytes ≡ copy_at (set named 33 (length bytes)) 34 bytes
  unfolding fs_payload
  fs_payload_exact =
      let a : min (length path) 30 ≡ length path = omega arith in
      let b : min (length bytes) 94 ≡ length bytes = omega arith in
      simp (
        fs_payload,
        a,
        b,
        take_all (length path) path (omega arith),
        take_all (length bytes) bytes (omega arith),
      )

  head_byte :
      (i : ℕ) → i < 3 → byte_at (copy_at (set named 33 (length bytes)) 34 bytes) i ≡ byte_at start i
  head_byte i h =
      byte_at-copy_at (set named 33 (length bytes)) 34 bytes i (omega arith)
      ∙ (get_or-set_ne named 33 i (length bytes) 0 (λ e. absurd (omega (arith, e, h)))
          ∙ byte_at-copy_at start 3 path i h)

  -- What the client writes into a payload is what the service reads from it.
  pub fs_payload-IsRequest : IsRequest (fs_payload op mount path bytes) op mount path bytes
  fs_payload-IsRequest =
      let full = set named 33 (length bytes) in
      rw fs_payload_exact (record {
        whole = length-copy_at full 34 bytes (omega (arith, filled_whole)) ∙ filled_whole;
        op_is = head_byte 0 (omega arith);
        mount_is = head_byte 1 (omega arith);
        name_len_is = head_byte 2 (omega arith);
        name_is =
            slice_of-copy_at_before full 34 bytes 3 (length path) (omega arith)
              (omega (arith, filled_whole))
            ∙ (slice_of-set named 33 (length bytes) 3 (length path) (omega arith)
                ∙ slice_of-copy_at start 3 path (omega arith));
        data_len_is =
            byte_at-copy_at full 34 bytes 33 (omega arith)
            ∙ get_or-set_self named 33 (length bytes) 0 (omega (arith, named_whole));
        data_is = slice_of-copy_at full 34 bytes (omega (arith, filled_whole));
      })
