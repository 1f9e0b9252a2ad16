-- ===== src/Service/Fs/Requests.antt =====
-- Every request of the file service ends in an outcome, or stops the kernel.
use runix_os.Prelude.{
  ℕ, ◌+◌, ◌<◌, ◌≤◌, ◌≡◌, ◌⊎◌, inl, inr, refl, sym, subst, arith, Bool, true, false, ◌||◌,
  Bool-cases, Option, none, some, Option-cases, List, [], ◌∷◌, ◌==◌, length, byte_at, slice_of,
  if◌then◌else◌, ltb,
}
use runix_os.Message.{Message}
use runix_os.Task.{Scheduler}
use runix_os.Service.Authority.{Holds, sender_holds-Holds, Holds-sender_holds}
use runix_os.Service.{sender_holds}
use runix_os.Service.Fs.Listing.{FsNode, prefix_of, list_nodes}
use runix_os.Service.Fs.{
  fs_grants, fs_check_cap, mkdir, write, read, delete, stat, operate, handle, is_fs_op,
}
use runix_os.Service.Fs.Nodes.{IsFs}
use runix_os.Service.Fs.Directory.{list_nodes-Listed}
use runix_os.Service.Fs.Access.{
  Outcome, denied, listed, ListsNothing, mkdir-Outcome, write-Outcome, delete-Outcome, read-Outcome,
  stat-Outcome, path_length,
}

-- The result of a request: an outcome, or the stop of the kernel by an index out of range.
abbrev pub Ends : List FsNode → Scheduler → Message → Option (List FsNode × List ℕ) → Type 0
Ends nodes sched msg result =
    ((result ≡ none) × ListsNothing sched msg)
    ⊎ ((nodes' : List FsNode) × (reply : List ℕ) × (result ≡ some (nodes', reply))
        × Outcome nodes sched msg (byte_at msg.payload 1)
            (slice_of msg.payload 3 (byte_at msg.payload 2)) nodes' reply)

-- A path that is not empty has a prefix.
prefix_of-none : (n : ℕ) (name : List ℕ) → prefix_of n name ≡ none → n ≡ 0
unfolding prefix_of
prefix_of-none n name e = ground (arith, e)

list_nodes-none :
    (nodes : List FsNode) (mount n : ℕ) (name : List ℕ)
    → list_nodes nodes mount n name ≡ none
    → n ≡ 0
unfolding list_nodes
list_nodes-none nodes mount n name e = elim (Option-cases (prefix_of n name)) [
  | inl f ↦ prefix_of-none n name f
  | inr (p, f) ↦ absurd (cc (simp (list_nodes, f) at e))
]

module _ (nodes : List FsNode) (sched : Scheduler) (msg : Message) (s : IsFs nodes)
    (whole : length msg.payload ≡ 128) where
  refuse : (code : ℕ) → 0 < code → Ends nodes sched msg (some (nodes, code ∷ []))
  refuse code c = inr (nodes, code ∷ [], refl, denied code c refl refl)

  -- An operation behind a check for `need_write`, as an equation of its result says.
  checked :
      (need_write : Bool) (then_result : Option (List FsNode × List ℕ))
      → (Holds sched msg.sender (fs_grants (byte_at msg.payload 1) need_write)
          → Ends nodes sched msg then_result)
      → Ends nodes sched msg (
          if fs_check_cap sched msg.sender (byte_at msg.payload 1) need_write
          then then_result
          else some (nodes, 1 ∷ []))
  unfolding fs_check_cap
  checked need_write then_result f =
      let mount = byte_at msg.payload 1 in
      elim (Bool-cases (sender_holds sched msg.sender (fs_grants mount need_write))) [
        | inl e ↦ simp e (f (sender_holds-Holds sched msg.sender (fs_grants mount need_write) e))
        | inr e ↦ simp e (refuse 1 (omega arith))
      ]

  list-Ends :
      byte_at msg.payload 2 ≤ 30
      → byte_at msg.payload 0 ≡ 3
      → Holds sched msg.sender (fs_grants (byte_at msg.payload 1) false)
      → Ends nodes sched msg
          (elim (list_nodes nodes
            (byte_at msg.payload 1)
            (byte_at msg.payload 2)
            (slice_of msg.payload 3 (byte_at msg.payload 2))) [
              | none ↦ none
              | some reply ↦ some (nodes, reply)
            ])
  list-Ends bound op h =
      elim (Option-cases (
        list_nodes nodes (byte_at msg.payload 1) (byte_at msg.payload 2)
          (slice_of msg.payload 3 (byte_at msg.payload 2)))) [
            | inl e ↦ simp e (
                inl (
                  refl,
                  record {
                    op = op;
                    name_len =
                        list_nodes-none nodes (byte_at msg.payload 1) (byte_at msg.payload 2)
                          (slice_of msg.payload 3 (byte_at msg.payload 2)) e;
                    authority = h;
                  },
                ))
            | inr (reply, e) ↦ simp e (
                inr (
                  nodes,
                  reply,
                  refl,
                  listed op h refl (
                      list_nodes-Listed nodes (byte_at msg.payload 1)
                        (slice_of msg.payload 3 (byte_at msg.payload 2)) reply
                        (subst
                          (λ n.
                            list_nodes nodes (byte_at msg.payload 1) n
                              (slice_of msg.payload 3 (byte_at msg.payload 2))
                            ≡ some reply)
                          (sym (path_length nodes sched msg s whole bound)) e)),
                ))
          ]

  operate-Ends : byte_at msg.payload 2 ≤ 30 → Ends nodes sched msg (operate nodes sched msg)
  unfolding operate
  operate-Ends bound =
      let op = byte_at msg.payload 0 in
      let mount = byte_at msg.payload 1 in
      let n = byte_at msg.payload 2 in
      let name = slice_of msg.payload 3 n in
      elim (Bool-cases (op == 0)) [
        | inl e0 ↦ simp e0 (
            checked true (some (mkdir nodes mount n name)) (λ h.
              inr (_, _, refl, mkdir-Outcome nodes sched msg s whole bound (ground (arith, e0)) h)))
        | inr e0 ↦ elim (Bool-cases (op == 1)) [
          | inl e1 ↦
              simp (e0, e1)
                (checked true (some (write nodes msg mount n name)) (λ h.
                  inr (
                    _,
                    _,
                    refl,
                    write-Outcome nodes sched msg s whole bound (ground (arith, e1)) h,
                  )))
          | inr e1 ↦ elim (Bool-cases (op == 2)) [
            | inl e2 ↦
                simp (e0, e1, e2)
                  (checked false (some (nodes, read nodes mount name)) (λ h. inr (
                    _,
                    _,
                    refl,
                    read-Outcome nodes sched msg s whole bound (ground (arith, e2)) h,
                  )))
            | inr e2 ↦ elim (Bool-cases (op == 3)) [
              | inl e3 ↦
                  simp (e0, e1, e2, e3)
                    (checked false
                      (elim (list_nodes nodes mount n name) [
                        | none ↦ none
                        | some reply ↦ some (nodes, reply)
                      ])
                      (list-Ends bound (ground (arith, e3))))
              | inr e3 ↦ elim (Bool-cases (op == 4)) [
                | inl e4 ↦
                    simp (e0, e1, e2, e3, e4)
                      (checked true (some (delete nodes mount name)) (λ h. inr (
                        _,
                        _,
                        refl,
                        delete-Outcome nodes sched msg s whole bound (ground (arith, e4)) h,
                      )))
                | inr e4 ↦ elim (Bool-cases (op == 5)) [
                  | inl e5 ↦
                      simp (e0, e1, e2, e3, e4, e5)
                        (checked false (some (nodes, stat nodes mount name)) (λ h. inr (
                          _,
                          _,
                          refl,
                          stat-Outcome nodes sched msg s whole bound (ground (arith, e5)) h,
                        )))
                  | inr e5 ↦ simp (e0, e1, e2, e3, e4, e5) (refuse 4 (omega arith))
                ]
              ]
            ]
          ]
        ]
      ]

-- Every request to a sound store ends in one of two ways. Either the kernel stops, and then the request
-- lists the empty path, by a task that may read the mount; or the store and the reply are an outcome of
-- the request: it is refused with a code alone; or the sender holds a writable capability for the mount,
-- and the path alone is changed, to an empty directory (operation 0), to the bytes sent (1), or to
-- nothing (4); or the sender holds a readable one, the store is as it was, and the reply gives the file's
-- bytes (2), the kind and size of what is there (5), or the directory's listing (3): in the store's
-- order, one line for each path of this mount that lies directly under the given one, where it still fits
-- into 126 bytes, with their number before them.
pub handle-FsEnds :
    (nodes : List FsNode) (sched : Scheduler) (msg : Message)
    → IsFs nodes
    → length msg.payload ≡ 128
    → Ends nodes sched msg (handle nodes sched msg)
unfolding handle
handle-FsEnds nodes sched msg s whole =
    let n = byte_at msg.payload 2 in
    elim (Bool-cases (is_fs_op msg.tag)) [
      | inr e ↦ simp e (refuse nodes sched msg s whole 4 (omega arith))
      | inl e ↦ elim (Bool-cases (ltb msg.len 3 || (ltb 30 n || ltb msg.len (3 + n)))) [
        | inl f ↦ simp (e, f) (refuse nodes sched msg s whole 4 (omega arith))
        | inr f ↦ simp (e, f) (operate-Ends nodes sched msg s whole (ground (arith, f)))
      ]
    ]

-- The stop is real: whoever may read a mount stops the kernel by listing the empty path of it.
pub handle-ListsNothing :
    (nodes : List FsNode) (sched : Scheduler) (msg : Message)
    → is_fs_op msg.tag ≡ true
    → 2 < msg.len
    → ListsNothing sched msg
    → handle nodes sched msg ≡ none
unfolding handle operate fs_check_cap list_nodes prefix_of
handle-ListsNothing nodes sched msg t l h =
    let a =
      Holds-sender_holds sched msg.sender (fs_grants (byte_at msg.payload 1) false) h.authority in
    let e : ltb msg.len 3 ≡ false = ground arith in
    let p = h.name_len in let q = h.op in simp (handle, operate, t, e, p, q, a)
