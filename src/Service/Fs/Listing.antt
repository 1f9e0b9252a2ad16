-- ===== src/Service/Fs/Listing.antt =====
-- kernel/shell/mod.rs, the file service's nodes and its `ls`. `contents` is the field `data`.
use runix_os.Prelude.{
  ℕ, ◌+◌, ◌-◌, Bool, ◌&&◌, not, Option, none, some, List, [], ◌∷◌, ◌++◌, ◌==◌, if◌then◌else◌, leb,
  length, take, drop, byte_at, eq_bytes, starts_with, contains,
}

pub record FsNode : Type 0 where
  pub used : Bool
  pub is_dir : Bool
  pub name : List ℕ
  pub name_len : ℕ
  pub contents : List ℕ
  pub data_len : ℕ
  pub mount : ℕ

-- `&node.name[..node.name_len]`
abbrev pub path_of : FsNode → List ℕ
path_of node = take node.name_len node.name

abbrev pub slash : List ℕ
slash = 47 ∷ []

-- The part of the reply after its first two bytes, and `count`.
abbrev pub Output : Type 0
Output = List ℕ × ℕ

-- A suffix and a newline, when they fit into the reply, whose next index is `2 + length out`.
unfoldable pub add_suffix : List ℕ → Output → Output
add_suffix suffix (out, count) =
    if contains suffix 47
    then (out, count)
    else if leb (2 + length out + length suffix + 1) 128
    then (out ++ (suffix ++ (10 ∷ [])), count + 1)
    else (out, count)

unfoldable pub add_node : ℕ → List ℕ → List ℕ → FsNode → Output → Output
unfolding add_suffix
add_node mount name prefix node output =
    let path = path_of node in
    if node.used && node.mount == mount
    then (if starts_with path prefix && not (eq_bytes path name)
        then add_suffix (drop (length prefix) path) output
        else if eq_bytes name slash && (starts_with path slash && not (eq_bytes path slash))
        then add_suffix (drop 1 path) output
        else output)
    else output

unfoldable pub add_nodes : ℕ → List ℕ → List ℕ → List FsNode → Output → Output
add_nodes mount name prefix [] output = output
add_nodes mount name prefix (node ∷ nodes) output =
    add_nodes mount name prefix nodes (add_node mount name prefix node output)

-- The directory's path with a slash at its end; `none` is the index `name_len - 1` of an empty path.
unfoldable pub prefix_of : ℕ → List ℕ → Option (List ℕ)
prefix_of name_len name =
    if eq_bytes name slash
    then some slash
    else if name_len == 0
    then none
    else if byte_at name (name_len - 1) == 47
    then some name
    else some (name ++ slash)

unfoldable pub list_nodes : List FsNode → ℕ → ℕ → List ℕ → Option (List ℕ)
list_nodes nodes mount name_len name = elim (prefix_of name_len name) [
  | none ↦ none
  | some prefix ↦
      let (out, count) = add_nodes mount name prefix nodes ([], 0) in some (0 ∷ count ∷ out)
]
