-- ===== src/Service/Fs/Nodes.antt =====
-- The file service's nodes as a finite map from mounts and paths to contents.
use runix_os.Prelude.{
  ℕ, ◌<◌, ◌≤◌, ◌≡◌, ◌≢◌, ◌⊎◌, inl, inr, refl, sym, ap, ◌∙◌, subst, arith, Bool, true, false,
  Bool-cases, Option, none, some, Option-cases, List, ◌==◌, length, get_or, set, take, find_index,
  find_index-some, find_index_absent, find_index-set_ne, find_index-set_self, get_or-set_self,
  get_or-set_ne, get_or-replicate, length-set, eq_bytes→≡,
}
use runix_os.Service.Fs.Listing.{FsNode, path_of}
use runix_os.Service.Fs.{empty_node, new, is_at, find_node}

abbrev pub node_at : List FsNode → ℕ → FsNode
node_at nodes i = get_or nodes i empty_node

-- Whether it is a directory, and its bytes.
abbrev pub view : FsNode → Bool × List ℕ
view node = (node.is_dir, take node.data_len node.contents)

-- What the store has at a path of a mount.
unfoldable pub content : List FsNode → ℕ → List ℕ → Option (Bool × List ℕ)
content nodes mount name = elim (find_node nodes mount name) [
  | none ↦ none
  | some i ↦ some (view (node_at nodes i))
]

-- The arrays of a node have their sizes, and the lengths lie in them.
pub record IsNode (node : FsNode) : Type 0 where
  pub name_whole : length node.name ≡ 30
  pub name_in : node.name_len ≤ 30
  pub data_whole : length node.contents ≡ 94
  pub data_in : node.data_len ≤ 94

-- A store of 64 nodes, no two of which stand for the same path of the same mount.
pub record IsFs (nodes : List FsNode) : Type 0 where
  pub whole : length nodes ≡ 64
  pub sized : (i : ℕ) → IsNode (node_at nodes i)
  pub distinct :
      (mount : ℕ) (name : List ℕ) (i j : ℕ)
      → is_at mount name (node_at nodes i) ≡ true
      → is_at mount name (node_at nodes j) ≡ true
      → i ≡ j

-- The store after a change at one path of one mount.
pub record Updated (nodes : List FsNode) (mount : ℕ) (name : List ℕ) (new : Option (Bool × List ℕ))
    (nodes' : List FsNode) : Type 0 where
  pub sound : IsFs nodes'
  pub here : content nodes' mount name ≡ new
  pub others :
      (m : ℕ) (n : List ℕ) → (m ≢ mount) ⊎ (n ≢ name) → content nodes' m n ≡ content nodes m n

empty_node-IsNode : IsNode empty_node
empty_node-IsNode = record {
  name_whole = refl;
  name_in = omega arith;
  data_whole = refl;
  data_in = omega arith;
}

pub new-IsFs : IsFs new
unfolding new
new-IsFs =
    let e : (i : ℕ) → node_at new i ≡ empty_node = λ i. get_or-replicate 64 i empty_node in
    record {
      whole = refl;
      sized = λ i. subst IsNode (sym (e i)) empty_node-IsNode;
      distinct = λ m n i j h k. absurd (cc (ap (λ x. is_at m n x) (e i), h));
    }

-- A node in use is at one path of one mount only.
pub is_at_used : (m : ℕ) (n : List ℕ) (node : FsNode) → is_at m n node ≡ true → node.used ≡ true
is_at_used m n node h = ground (arith, h)

pub is_at_mount : (m : ℕ) (n : List ℕ) (node : FsNode) → is_at m n node ≡ true → node.mount ≡ m
is_at_mount m n node h = ground (arith, h)

pub is_at_path : (m : ℕ) (n : List ℕ) (node : FsNode) → is_at m n node ≡ true → path_of node ≡ n
is_at_path m n node h = eq_bytes→≡ (path_of node) n (ground (arith, h))

pub is_at_elsewhere :
    (mount m : ℕ) (name n : List ℕ) (node : FsNode)
    → is_at mount name node ≡ true
    → (m ≢ mount) ⊎ (n ≢ name)
    → is_at m n node ≡ false
is_at_elsewhere mount m name n node h ne = elim (Bool-cases (is_at m n node)) [
  | inr e ↦ e
  | inl e ↦ elim ne [
    | inl a ↦ absurd (a (sym (is_at_mount m n node e) ∙ is_at_mount mount name node h))
    | inr a ↦ absurd (a (sym (is_at_path m n node e) ∙ is_at_path mount name node h))
  ]
]

pub content-none :
    (nodes : List FsNode) (m : ℕ) (n : List ℕ)
    → find_node nodes m n ≡ none
    → content nodes m n ≡ none
unfolding content
content-none nodes m n e = simp (content, e)

pub content-some :
    (nodes : List FsNode) (m : ℕ) (n : List ℕ) (i : ℕ)
    → find_node nodes m n ≡ some i
    → content nodes m n ≡ some (view (node_at nodes i))
unfolding content
content-some nodes m n i e = simp (content, e)

-- A write that changes neither what passes nor what is at the path leaves the content of the path.
content-set_ne :
    (nodes : List FsNode) (i : ℕ) (v : FsNode) (m : ℕ) (n : List ℕ)
    → is_at m n v ≡ false
    → is_at m n (node_at nodes i) ≡ false
    → content (set nodes i v) m n ≡ content nodes m n
unfolding content find_node
content-set_ne nodes i v m n h k =
    let same = find_index-set_ne (is_at m n) empty_node nodes i v h k in
    elim (Option-cases (find_index (is_at m n) nodes)) [
      | inl e ↦ simp (content, same, e)
      | inr (j, e) ↦
          let at = (find_index-some (is_at m n) empty_node nodes j e).1 in
          let ne : i ≢ j = λ q. cc (ap (λ x. is_at m n (node_at nodes x)) q, at, k) in
          simp (content, same, e)
            (ap (λ x. some (view x)) (get_or-set_ne nodes i j v empty_node ne))
    ]

-- A write of `v` to cell `i`, which is the only one that can pass for the path, and passes for no other.
module _ (nodes : List FsNode) (mount : ℕ) (name : List ℕ) (i : ℕ) (v : FsNode) (s : IsFs nodes)
    (lt : i < 64) (wf : IsNode v)
    (only : (j : ℕ) → j ≢ i → is_at mount name (node_at nodes j) ≡ false)
    (free : (m : ℕ) (n : List ℕ)
      → (m ≢ mount) ⊎ (n ≢ name)
      → is_at m n (node_at nodes i) ≡ false) where
  at_self : node_at (set nodes i v) i ≡ v
  at_self = get_or-set_self nodes i v empty_node (omega (arith, s.whole))

  at_ne : (j : ℕ) → j ≢ i → node_at (set nodes i v) j ≡ node_at nodes j
  at_ne j ne = get_or-set_ne nodes i j v empty_node (λ e. ne (sym e))

  put-sized : (j : ℕ) → IsNode (node_at (set nodes i v) j)
  put-sized j = elim (Bool-cases (j == i)) [
    | inl e ↦ subst IsNode (sym (ap (node_at (set nodes i v)) (ground (arith, e)) ∙ at_self)) wf
    | inr e ↦ subst IsNode (sym (at_ne j (ground (arith, e)))) (s.sized j)
  ]

  put-others :
      (m : ℕ) (n : List ℕ)
      → (m ≢ mount) ⊎ (n ≢ name)
      → is_at m n v ≡ false
      → content (set nodes i v) m n ≡ content nodes m n
  put-others m n ne h = content-set_ne nodes i v m n h (free m n ne)

  put_distinct :
      ((m : ℕ) (n : List ℕ) → is_at m n v ≡ true → (m ≡ mount) × (n ≡ name))
      → (m : ℕ) (n : List ℕ) (a b : ℕ) → is_at m n (node_at (set nodes i v) a) ≡ true
      → is_at m n (node_at (set nodes i v) b) ≡ true
      → a ≡ b
  put_distinct where_v m n a b h k =
      let alone : (j : ℕ)
          → j ≢ i
          → is_at m n (node_at (set nodes i v) j) ≡ true
          → is_at m n v ≡ true
          → ⊥ =
        λ j ne p q.
          let (em, en) = where_v m n q in
          let old : is_at m n (node_at nodes j) ≡ true = sym (ap (is_at m n) (at_ne j ne)) ∙ p in
          cc (only j ne, old, em, en) in
      elim (Bool-cases (a == i)) [
        | inl e ↦
            let ea : a ≡ i = ground (arith, e) in
            let pv : is_at m n v ≡ true =
              sym (ap (is_at m n) (ap (node_at (set nodes i v)) ea ∙ at_self)) ∙ h in
            elim (Bool-cases (b == i)) [
              | inl f ↦ ground (arith, e, f)
              | inr f ↦ absurd (alone b (ground (arith, f)) k pv)
            ]
        | inr e ↦
            let na : a ≢ i = ground (arith, e) in
            elim (Bool-cases (b == i)) [
              | inl f ↦
                  let eb : b ≡ i = ground (arith, f) in
                  let pv : is_at m n v ≡ true =
                    sym (ap (is_at m n) (ap (node_at (set nodes i v)) eb ∙ at_self)) ∙ k in
                  absurd (alone a na h pv)
              | inr f ↦
                  let nb : b ≢ i = ground (arith, f) in
                  s.distinct m n a b (sym (ap (is_at m n) (at_ne a na)) ∙ h)
                    (sym (ap (is_at m n) (at_ne b nb)) ∙ k)
            ]
      ]

  -- A node for the path.
  pub put-Updated :
      is_at mount name v ≡ true → Updated nodes mount name (some (view v)) (set nodes i v)
  unfolding find_node
  put-Updated p = record {
    sound = record {
      whole = length-set nodes i v ∙ s.whole;
      sized = put-sized;
      distinct = put_distinct (λ m n q. (
        sym (is_at_mount m n v q) ∙ is_at_mount mount name v p,
        sym (is_at_path m n v q) ∙ is_at_path mount name v p,
      ));
    };
    here =
        content-some (set nodes i v) mount name i (
          find_index-set_self (is_at mount name) empty_node nodes i v (omega (arith, s.whole)) p
            only)
        ∙ ap (λ x. some (view x)) at_self;
    others = λ m n ne. put-others m n ne (is_at_elsewhere mount m name n v p ne);
  }

  -- A node that is not in use.
  pub free-Updated : v.used ≡ false → Updated nodes mount name none (set nodes i v)
  unfolding find_node
  free-Updated u =
      let unused : (m : ℕ) (n : List ℕ) → is_at m n v ≡ false = λ m n. ground (arith, u) in
      let nowhere : (j : ℕ) → is_at mount name (node_at (set nodes i v) j) ≡ false = λ j.
        elim (Bool-cases (j == i)) [
          | inl e ↦
              ap (is_at mount name) (ap (node_at (set nodes i v)) (ground (arith, e)) ∙ at_self)
              ∙ unused mount name
          | inr e ↦
              let ne : j ≢ i = ground (arith, e) in ap (is_at mount name) (at_ne j ne) ∙ only j ne
        ] in
      record {
        sound = record {
          whole = length-set nodes i v ∙ s.whole;
          sized = put-sized;
          distinct = put_distinct (λ m n q. absurd (cc (q, unused m n)));
        };
        here =
            content-none (set nodes i v) mount name
              (find_index_absent (is_at mount name) empty_node (set nodes i v) nowhere);
        others = λ m n ne. put-others m n ne (unused m n);
      }
