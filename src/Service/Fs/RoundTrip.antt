-- ===== src/Service/Fs/RoundTrip.antt =====
-- A file's way through the client, the service and back.
use runix_os.Prelude.{
  ℕ, ◌+◌, ◌≤◌, ◌≡◌, refl, sym, ap, subst, ◌∙◌, arith, true, false, ◌||◌, Bool-cases, some, List, [],
  ◌∷◌, length, if◌then◌else◌, ltb, inl, inr,
}
use runix_os.Capability.{TaskId}
use runix_os.Message.{Message, fs_op}
use runix_os.Task.{Scheduler}
use runix_os.Service.Authority.{Holds, Holds-sender_holds}
use runix_os.Service.Client.{fs_payload, fs_payload-IsRequest}
use runix_os.Service.Fs.Listing.{FsNode}
use runix_os.Service.Fs.{fs_grants, fs_check_cap, store_file, write, read, operate, handle}
use runix_os.Service.Fs.Nodes.{IsFs, Updated}
use runix_os.Service.Fs.Files.{refused, changed, store_file-Changed}
use runix_os.Service.Fs.Views.{read-content}

-- The message that the shell's request becomes.
abbrev pub fs_message : TaskId → ℕ → ℕ → List ℕ → List ℕ → Message
fs_message sender op mount path bytes = record {
  sender = sender;
  tag = fs_op;
  version = 1;
  payload = fs_payload op mount path bytes;
  len = 128;
}

module _ (nodes : List FsNode) (sched : Scheduler) (sender : TaskId) (mount : ℕ)
    (path bytes : List ℕ) (short : length path ≤ 30) (small : length bytes ≤ 94) where
  not_short : (ltb 30 (length path) || ltb 128 (3 + length path)) ≡ false
  not_short = ground (arith, short)

  not_large : (ltb 94 (length bytes) || ltb 128 (34 + length bytes)) ≡ false
  not_large = ground (arith, small)

  handle-write : handle nodes sched (fs_message sender 1 mount path bytes) ≡ (
      if fs_check_cap sched sender mount true
      then some (store_file nodes mount (length path) path (length bytes) bytes)
      else some (nodes, 1 ∷ []))
  unfolding handle operate write
  handle-write =
      let r = fs_payload-IsRequest 1 mount path bytes short small in
      simp (
        handle, operate, write, r.op_is, r.mount_is, r.name_len_is, r.name_is, r.data_len_is,
        r.data_is, not_short, not_large,
      )

  handle-read :
      Holds sched sender (fs_grants mount false)
      → handle nodes sched (fs_message sender 2 mount path bytes)
        ≡ some (nodes, read nodes mount path)
  unfolding handle operate fs_check_cap
  handle-read h =
      let r = fs_payload-IsRequest 2 mount path bytes short small in
      let a = Holds-sender_holds sched sender (fs_grants mount false) h in
      simp
        (handle, operate, fs_check_cap, r.op_is, r.mount_is, r.name_len_is, r.name_is, not_short, a)

-- A write that was answered with success put the bytes at the path, and left every other path.
pub handle-write-Updated :
    (nodes nodes' : List FsNode) (sched : Scheduler) (sender : TaskId) (mount : ℕ)
    (path bytes : List ℕ)
    → length path ≤ 30
    → length bytes ≤ 94
    → IsFs nodes
    → handle nodes sched (fs_message sender 1 mount path bytes) ≡ some (nodes', 0 ∷ [])
    → Updated nodes mount path (some (false, bytes)) nodes'
handle-write-Updated nodes nodes' sched sender mount path bytes short small s done =
    let e = handle-write nodes sched sender mount path bytes short small in
    elim (Bool-cases (fs_check_cap sched sender mount true)) [
      | inr f ↦ absurd (cc (sym (simp f at e) ∙ done))
      | inl f ↦
          let stored : some (store_file nodes mount (length path) path (length bytes) bytes)
              ≡ some (nodes', 0 ∷ []) =
            sym (simp f at e) ∙ done in
          let (old, file, c) =
            store_file-Changed nodes mount path s (length path) refl short (length bytes) bytes refl
              small in
          elim c [
            | refused code p r q ↦ absurd (grind (arith, stored, r, p))
            | changed r o u ↦ subst (Updated nodes mount path (some (false, bytes))) (cc stored) u
          ]
    ]

-- A client that writes a file and is told that it worked, and any client that then reads the path and may
-- read the mount: the reply is the file's length and its bytes. The path has at most 30 bytes and the
-- file at most 94.
pub read-write :
    (nodes nodes' : List FsNode) (sched sched' : Scheduler) (writer reader : TaskId) (mount : ℕ)
    (path bytes : List ℕ)
    → length path ≤ 30
    → length bytes ≤ 94
    → IsFs nodes
    → handle nodes sched (fs_message writer 1 mount path bytes) ≡ some (nodes', 0 ∷ [])
    → Holds sched' reader (fs_grants mount false)
    → handle nodes' sched' (fs_message reader 2 mount path [])
      ≡ some (nodes', 0 ∷ length bytes ∷ bytes)
read-write nodes nodes' sched sched' writer reader mount path bytes short small s done may =
    let u = handle-write-Updated nodes nodes' sched writer mount path bytes short small s done in
    handle-read nodes' sched' reader mount path [] short (omega arith) may
    ∙ elim (read-content nodes' mount path u.sound) [
      | inl (_, none_there) ↦ absurd (none_there bytes u.here)
      | inr (b, c, r) ↦
          let same : b ≡ bytes = cc (c, u.here) in
          ap (λ x. some (nodes', x)) (r ∙ ap (λ x. 0 ∷ length x ∷ x) same)
    ]
