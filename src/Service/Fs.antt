-- ===== src/Service/Fs.antt =====
-- kernel/shell/mod.rs, the file service: 64 nodes, each a file of at most 94 bytes or a directory, with a
-- mount and an absolute path of at most 30 bytes. Only the first `reply_len` bytes of a reply are
-- sent, and these are what the operations give. The counter of operations is left out.
pub mod Listing
pub mod Nodes
pub mod Children
pub mod Directory
pub mod Access
pub mod Files
pub mod Views
pub mod Requests
pub mod RoundTrip
use runix_os.Prelude.{
  ℕ, Bool, true, false, ◌&&◌, not, Option, none, some, List, [], ◌∷◌, ◌++◌, ◌==◌, if◌then◌else◌,
  ltb, ◌+◌, get_or, set, replicate, byte_at, slice_of, copy_over, take, eq_bytes, find_index, ◌||◌,
}
use runix_os.Capability.{TaskId, Capability, fs_node}
use runix_os.Message.{Message, IpcTag, fs_op, fs_reply}
use runix_os.Task.{Scheduler}
use runix_os.Kernel.{Kernel}
use runix_os.Ipc.{Result}
use runix_os.Service.{sender_holds, grants, reply_typed}
use runix_os.Service.Log.{ne_bytes}
use runix_os.Service.Fs.Listing.{FsNode, path_of, list_nodes}

abbrev pub empty_node : FsNode
empty_node = record {
  used = false;
  is_dir = false;
  name = replicate 30 0;
  name_len = 0;
  contents = replicate 94 0;
  data_len = 0;
  mount = 0;
}

unfoldable pub new : List FsNode
new = replicate 64 empty_node

abbrev pub is_at : ℕ → List ℕ → FsNode → Bool
is_at mount name node = node.used && (node.mount == mount && eq_bytes (path_of node) name)

unfoldable pub find_node : List FsNode → ℕ → List ℕ → Option ℕ
find_node nodes mount name = find_index (is_at mount name) nodes

-- The loop that looks for a node that is not used.
unfoldable pub find_unused : List FsNode → Option ℕ
find_unused nodes = find_index (λ node. not node.used) nodes

-- The test of one capability in `fs_check_cap`.
unfoldable pub fs_grants : ℕ → Bool → Capability → Bool
fs_grants mount need_write cap = elim cap.resource [
  | fs_node m readable writable ↦ m == mount && grants cap readable writable need_write
  | _ ↦ false
]

unfoldable pub fs_check_cap : Scheduler → TaskId → ℕ → Bool → Bool
fs_check_cap sched sender mount need_write = sender_holds sched sender (fs_grants mount need_write)

unfoldable pub mkdir : List FsNode → ℕ → ℕ → List ℕ → List FsNode × List ℕ
mkdir nodes mount name_len name = elim (find_node nodes mount name) [
  | some _ ↦ (nodes, 4 ∷ [])
  | none ↦ elim (find_unused nodes) [
    | none ↦ (nodes, 3 ∷ [])
    | some idx ↦
        let node = get_or nodes idx empty_node in
        let node' : FsNode = record node {
          used = true;
          is_dir = true;
          name = copy_over node.name name;
          name_len = name_len;
          data_len = 0;
          mount = mount;
        } in
        (set nodes idx node', 0 ∷ [])
  ]
]

-- The contents `bytes` are put into the node of the path, or into a node for it.
unfoldable pub store_file : List FsNode → ℕ → ℕ → List ℕ → ℕ → List ℕ → List FsNode × List ℕ
store_file nodes mount name_len name data_len bytes = elim (find_node nodes mount name) [
  | some idx ↦
      let node = get_or nodes idx empty_node in
      let node' : FsNode = record node {
        contents = copy_over node.contents bytes;
        data_len = data_len;
      } in
      if node.is_dir then (nodes, 4 ∷ []) else (set nodes idx node', 0 ∷ [])
  | none ↦ elim (find_unused nodes) [
    | none ↦ (nodes, 3 ∷ [])
    | some idx ↦
        let node = get_or nodes idx empty_node in
        let node' : FsNode = record {
          used = true;
          is_dir = false;
          name = copy_over node.name name;
          name_len = name_len;
          contents = copy_over node.contents bytes;
          data_len = data_len;
          mount = mount;
        } in
        (set nodes idx node', 0 ∷ [])
  ]
]

unfoldable pub write : List FsNode → Message → ℕ → ℕ → List ℕ → List FsNode × List ℕ
write nodes msg mount name_len name =
    let data_len = byte_at msg.payload 33 in
    if ltb 94 data_len || ltb msg.len (34 + data_len)
    then (nodes, 4 ∷ [])
    else store_file nodes mount name_len name data_len (slice_of msg.payload 34 data_len)

unfoldable pub read : List FsNode → ℕ → List ℕ → List ℕ
read nodes mount name = elim (find_node nodes mount name) [
  | none ↦ 2 ∷ []
  | some idx ↦
      let node = get_or nodes idx empty_node in
      if node.is_dir then 2 ∷ [] else 0 ∷ node.data_len ∷ take node.data_len node.contents
]

unfoldable pub delete : List FsNode → ℕ → List ℕ → List FsNode × List ℕ
delete nodes mount name = elim (find_node nodes mount name) [
  | none ↦ (nodes, 2 ∷ [])
  | some idx ↦
      let node = get_or nodes idx empty_node in
      let node' : FsNode = record node { used = false } in (set nodes idx node', 0 ∷ [])
]

unfoldable pub stat : List FsNode → ℕ → List ℕ → List ℕ
stat nodes mount name = elim (find_node nodes mount name) [
  | none ↦ 2 ∷ []
  | some idx ↦
      let node = get_or nodes idx empty_node in
      0 ∷ (if node.is_dir then 1 else 0) ∷ (ne_bytes 8 node.data_len ++ (node.mount ∷ []))
]

-- The six operations of a request that is long enough; `none` is an index out of range, which stops the
-- kernel.
unfoldable pub operate : List FsNode → Scheduler → Message → Option (List FsNode × List ℕ)
operate nodes sched msg =
    let op = byte_at msg.payload 0 in
    let mount = byte_at msg.payload 1 in
    let name_len = byte_at msg.payload 2 in
    let name = slice_of msg.payload 3 name_len in
    let denied : Option (List FsNode × List ℕ) = some (nodes, 1 ∷ []) in
    let may_write = fs_check_cap sched msg.sender mount true in
    let may_read = fs_check_cap sched msg.sender mount false in
    if op == 0
    then (if may_write then some (mkdir nodes mount name_len name) else denied)
    else if op == 1
    then (if may_write then some (write nodes msg mount name_len name) else denied)
    else if op == 2
    then (if may_read then some (nodes, read nodes mount name) else denied)
    else if op == 3
    then (if may_read
        then (elim (list_nodes nodes mount name_len name) [
          | none ↦ none
          | some reply ↦ some (nodes, reply)
        ])
        else denied)
    else if op == 4
    then (if may_write then some (delete nodes mount name) else denied)
    else if op == 5
    then (if may_read then some (nodes, stat nodes mount name) else denied)
    else some (nodes, 4 ∷ [])

abbrev pub is_fs_op : IpcTag → Bool
is_fs_op fs_op = true
is_fs_op _ = false

-- One request: the nodes and the reply.
unfoldable pub handle : List FsNode → Scheduler → Message → Option (List FsNode × List ℕ)
handle nodes sched msg =
    let name_len = byte_at msg.payload 2 in
    if is_fs_op msg.tag
    then (if ltb msg.len 3 || (ltb 30 name_len || ltb msg.len (3 + name_len))
        then some (nodes, 4 ∷ [])
        else operate nodes sched msg)
    else some (nodes, 4 ∷ [])

abbrev pub fs_task : TaskId
fs_task = 84

-- A round of the loop, from a received message on, and the end of the reply's send.
unfoldable pub serve :
    List (Kernel → Kernel)
    → List FsNode
    → Kernel
    → Message
    → Option (List FsNode × Option (Result (Unit {0}) × Kernel))
serve envs nodes k msg = elim (handle nodes k.sched msg) [
  | none ↦ none
  | some (nodes', reply) ↦ some (nodes', reply_typed envs k fs_task 84000 msg.sender fs_reply reply)
]
