-- ===== src/Service/Fs/Access.antt =====
-- Every request of the file service: who may make it, and what it does to the map from paths to contents.
use runix_os.Prelude.{
  ℕ, ◌+◌, ◌<◌, ◌≤◌, ◌≡◌, ◌≢◌, inl, inr, refl, sym, subst, ◌%◌, ◌^◌, ◌∙◌, arith, Bool, true, false,
  ◌||◌, Bool-cases, none, some, List, [], ◌∷◌, ◌++◌, length, byte_at, slice_of, if◌then◌else◌, ltb,
  length-take, length-drop, drop,
}
use runix_os.Message.{Message}
use runix_os.Task.{Scheduler}
use runix_os.Service.Authority.{Holds}
use runix_os.Service.Log.{ne_bytes}
use runix_os.Service.Log.Layout.{le_value, le_value-ne_bytes}
use runix_os.Service.Fs.Listing.{FsNode}
use runix_os.Service.Fs.Directory.{Listed}
use runix_os.Service.Fs.{fs_grants, mkdir, write, read, delete, stat}
use runix_os.Service.Fs.Nodes.{content, IsFs, Updated}
use runix_os.Service.Fs.Files.{refused, changed, mkdir-Changed, store_file-Changed, delete-Changed}
use runix_os.Service.Fs.Views.{read-content, stat-content}

-- A reply with a path's kind, its size in an eight-byte word, and its mount.
pub record Described (dir : Bool) (b : List ℕ) (mount : ℕ) (reply : List ℕ) : Type 0 where
  pub code : byte_at reply 0 ≡ 0
  pub kind : byte_at reply 1 ≡ (if dir then 1 else 0)
  pub size : le_value (slice_of reply 2 8) ≡ length b % 2 ^ 64
  pub rest : drop 10 reply ≡ mount ∷ []

stat_reply-Described :
    (dir : Bool) (b : List ℕ) (mount : ℕ) (reply : List ℕ)
    → reply ≡ 0 ∷ (if dir then 1 else 0) ∷ (ne_bytes 8 (length b) ++ (mount ∷ []))
    → Described dir b mount reply
unfolding ne_bytes
stat_reply-Described dir b mount reply e =
    subst (Described dir b mount) (sym e)
      (record { code = refl; kind = refl; size = le_value-ne_bytes (length b); rest = refl })

-- What a request of the message does, for its mount and path: all that changes the store wants a writable
-- capability for the mount, and all that shows something of it a readable one.
pub data Outcome (nodes : List FsNode) (sched : Scheduler) (msg : Message) (mount : ℕ)
    (name : List ℕ) (nodes' : List FsNode) (reply : List ℕ) : Type 0 where
  -- refused, with a code alone
  denied :
      (code : ℕ)
      → 0 < code
      → reply ≡ code ∷ []
      → nodes' ≡ nodes
      → Outcome nodes sched msg mount name nodes' reply
  -- a new directory, at a path where nothing was
  made :
      byte_at msg.payload 0 ≡ 0
      → Holds sched msg.sender (fs_grants mount true)
      → reply ≡ 0 ∷ []
      → content nodes mount name ≡ none
      → Updated nodes mount name (some (true, [])) nodes'
      → Outcome nodes sched msg mount name nodes' reply
  -- a file's bytes, at a path where no directory was
  written :
      byte_at msg.payload 0 ≡ 1
      → Holds sched msg.sender (fs_grants mount true)
      → reply ≡ 0 ∷ []
      → ((b : List ℕ) → content nodes mount name ≢ some (true, b))
      → Updated nodes mount name
          (some (false, slice_of msg.payload 34 (byte_at msg.payload 33)))
          nodes'
      → Outcome nodes sched msg mount name nodes' reply
  -- a path that is taken away
  deleted :
      byte_at msg.payload 0 ≡ 4
      → Holds sched msg.sender (fs_grants mount true)
      → reply ≡ 0 ∷ []
      → content nodes mount name ≢ none
      → Updated nodes mount name none nodes'
      → Outcome nodes sched msg mount name nodes' reply
  -- a file's bytes, shown
  shown :
      (b : List ℕ)
      → byte_at msg.payload 0 ≡ 2
      → Holds sched msg.sender (fs_grants mount false)
      → nodes' ≡ nodes
      → content nodes mount name ≡ some (false, b)
      → reply ≡ 0 ∷ length b ∷ b
      → Outcome nodes sched msg mount name nodes' reply
  -- a directory's listing
  listed :
      byte_at msg.payload 0 ≡ 3
      → Holds sched msg.sender (fs_grants mount false)
      → nodes' ≡ nodes
      → Listed nodes mount name reply
      → Outcome nodes sched msg mount name nodes' reply
  -- a path's kind and size
  described :
      (dir : Bool) (b : List ℕ)
      → byte_at msg.payload 0 ≡ 5
      → Holds sched msg.sender (fs_grants mount false)
      → nodes' ≡ nodes
      → content nodes mount name ≡ some (dir, b)
      → Described dir b mount reply
      → Outcome nodes sched msg mount name nodes' reply

-- A request to list the empty path, from a task that may read the mount.
pub record ListsNothing (sched : Scheduler) (msg : Message) : Type 0 where
  pub op : byte_at msg.payload 0 ≡ 3
  pub name_len : byte_at msg.payload 2 ≡ 0
  pub authority : Holds sched msg.sender (fs_grants (byte_at msg.payload 1) false)

slice_length : (xs : List ℕ) (from n : ℕ) → from + n ≤ length xs → length (slice_of xs from n) ≡ n
slice_length xs from n h = length-take n (drop from xs) (omega (arith, length-drop from xs))

module _ (nodes : List FsNode) (sched : Scheduler) (msg : Message) (s : IsFs nodes)
    (whole : length msg.payload ≡ 128) (bound : byte_at msg.payload 2 ≤ 30) where
  pub path_length : length (slice_of msg.payload 3 (byte_at msg.payload 2)) ≡ byte_at msg.payload 2
  path_length = slice_length msg.payload 3 (byte_at msg.payload 2) (omega (arith, whole, bound))

  pub mkdir-Outcome :
      let mount = byte_at msg.payload 1 in
      let name = slice_of msg.payload 3 (byte_at msg.payload 2) in
      let (nodes', reply) = mkdir nodes mount (byte_at msg.payload 2) name in
      byte_at msg.payload 0 ≡ 0
      → Holds sched msg.sender (fs_grants mount true)
      → Outcome nodes sched msg mount name nodes' reply
  mkdir-Outcome op h =
      elim (mkdir-Changed nodes (byte_at msg.payload 1)
        (slice_of msg.payload 3 (byte_at msg.payload 2)) s (byte_at msg.payload 2) path_length
        bound) [ refused code c r q ↦ denied code c r q | changed r o u ↦ made op h r o u ]

  pub write-Outcome :
      let mount = byte_at msg.payload 1 in
      let name = slice_of msg.payload 3 (byte_at msg.payload 2) in
      let (nodes', reply) = write nodes msg mount (byte_at msg.payload 2) name in
      byte_at msg.payload 0 ≡ 1
      → Holds sched msg.sender (fs_grants mount true)
      → Outcome nodes sched msg mount name nodes' reply
  unfolding write
  write-Outcome op h =
      let n = byte_at msg.payload 33 in
      elim (Bool-cases (ltb 94 n || ltb msg.len (34 + n))) [
        | inl e ↦ simp (write, e) (denied 4 (omega arith) refl refl)
        | inr e ↦
            let fits : n ≤ 94 = ground (arith, e) in
            let (old, file, c) =
              store_file-Changed nodes (byte_at msg.payload 1)
                (slice_of msg.payload 3 (byte_at msg.payload 2)) s (byte_at msg.payload 2)
                path_length bound n (slice_of msg.payload 34 n)
                (slice_length msg.payload 34 n (omega (arith, whole, fits))) fits in
            elim c [
              | refused code p r q ↦ simp (write, e) (denied code p r q)
              | changed r o u ↦ simp (write, e) (written op h r (λ b q. file b (sym o ∙ q)) u)
            ]
      ]

  pub delete-Outcome :
      let mount = byte_at msg.payload 1 in
      let name = slice_of msg.payload 3 (byte_at msg.payload 2) in
      let (nodes', reply) = delete nodes mount name in
      byte_at msg.payload 0 ≡ 4
      → Holds sched msg.sender (fs_grants mount true)
      → Outcome nodes sched msg mount name nodes' reply
  delete-Outcome op h =
      let (old, c) =
        delete-Changed nodes (byte_at msg.payload 1)
          (slice_of msg.payload 3 (byte_at msg.payload 2)) s in
      elim c [
        | refused code p r q ↦ denied code p r q
        | changed r o u ↦ deleted op h r (λ q. cc (sym o ∙ q)) u
      ]

  pub read-Outcome :
      let mount = byte_at msg.payload 1 in
      let name = slice_of msg.payload 3 (byte_at msg.payload 2) in
      byte_at msg.payload 0 ≡ 2
      → Holds sched msg.sender (fs_grants mount false)
      → Outcome nodes sched msg mount name nodes (read nodes mount name)
  read-Outcome op h =
      elim (read-content nodes (byte_at msg.payload 1)
        (slice_of msg.payload 3 (byte_at msg.payload 2)) s) [
          | inl (r, _) ↦ denied 2 (omega arith) r refl
          | inr (b, c, r) ↦ shown b op h refl c r
        ]

  pub stat-Outcome :
      let mount = byte_at msg.payload 1 in
      let name = slice_of msg.payload 3 (byte_at msg.payload 2) in
      byte_at msg.payload 0 ≡ 5
      → Holds sched msg.sender (fs_grants mount false)
      → Outcome nodes sched msg mount name nodes (stat nodes mount name)
  stat-Outcome op h =
      elim (stat-content nodes (byte_at msg.payload 1)
        (slice_of msg.payload 3 (byte_at msg.payload 2)) s) [
          | inl (r, _) ↦ denied 2 (omega arith) r refl
          | inr (dir, b, c, r) ↦
              described dir b op h refl c (stat_reply-Described dir b (byte_at msg.payload 1) _ r)
        ]
