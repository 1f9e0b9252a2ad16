-- ===== src/Service/Fs/Files.antt =====
-- Each operation of the file service on the map from paths to contents.
use runix_os.Prelude.{
  ℕ, ◌<◌, ◌≤◌, ◌≡◌, ◌≢◌, inl, inr, refl, ap, ◌∙◌, subst, arith, Bool, true, false, not, Bool-cases,
  Option, none, some, Option-cases, List, [], ◌∷◌, length, set, take, drop, copy_over,
  find_index-some, find_index-none_all, take-append, length-append, length-drop, eq_bytes_self,
}
use runix_os.Service.Fs.Listing.{FsNode, path_of}
use runix_os.Service.Fs.{empty_node, is_at, find_node, find_unused, mkdir, store_file, delete}
use runix_os.Service.Fs.Nodes.{
  node_at, view, content, IsNode, IsFs, Updated, content-none, content-some, is_at_elsewhere,
  put-Updated, free-Updated,
}

-- What an operation did: it refused with a code alone, or changed the content of the path from `old` to
-- `new`.
pub data Changed (nodes : List FsNode) (mount : ℕ) (name : List ℕ) (nodes' : List FsNode)
    (reply : List ℕ) (old new : Option (Bool × List ℕ)) : Type 0 where
  refused :
      (code : ℕ)
      → 0 < code
      → reply ≡ code ∷ []
      → nodes' ≡ nodes
      → Changed nodes mount name nodes' reply old new
  changed :
      reply ≡ 0 ∷ []
      → content nodes mount name ≡ old
      → Updated nodes mount name new nodes'
      → Changed nodes mount name nodes' reply old new

copy_over_size :
    (xs ys : List ℕ) (n : ℕ) → length xs ≡ n → length ys ≤ n → length (copy_over xs ys) ≡ n
copy_over_size xs ys n h k =
    omega (arith, length-append ys (drop (length ys) xs), length-drop (length ys) xs)

module _ (nodes : List FsNode) (mount : ℕ) (name : List ℕ) (s : IsFs nodes) where
  pub find_node-is_at :
      (i : ℕ)
      → find_node nodes mount name ≡ some i
      → (i < 64) × (is_at mount name (node_at nodes i) ≡ true)
  unfolding find_node
  find_node-is_at i e =
      let (lt, at) = find_index-some (is_at mount name) empty_node nodes i e in
      (omega (arith, lt, s.whole), at)

  -- A path that is not found is at no node.
  find_node_absent :
      find_node nodes mount name ≡ none → (j : ℕ) → is_at mount name (node_at nodes j) ≡ false
  unfolding find_node
  find_node_absent e j = find_index-none_all (is_at mount name) empty_node nodes refl e j

  find_unused-free :
      (i : ℕ) → find_unused nodes ≡ some i → (i < 64) × ((node_at nodes i).used ≡ false)
  unfolding find_unused
  find_unused-free i e =
      let (lt, at) = find_index-some (λ node. not node.used) empty_node nodes i e in
      (omega (arith, lt, s.whole), ground (arith, at))

  -- The node that is found is the only one at the path, and is at no other.
  found_only :
      (i : ℕ)
      → is_at mount name (node_at nodes i) ≡ true
      → (j : ℕ) → j ≢ i
      → is_at mount name (node_at nodes j) ≡ false
  found_only i e j ne = elim (Bool-cases (is_at mount name (node_at nodes j))) [
    | inr f ↦ f
    | inl f ↦ absurd (ne (s.distinct mount name j i f e))
  ]

  unused_nowhere :
      (i : ℕ)
      → (node_at nodes i).used ≡ false
      → (m : ℕ) (n : List ℕ) → is_at m n (node_at nodes i) ≡ false
  unused_nowhere i u m n = ground (arith, u)

  -- A node for a path that was not there.
  fresh-Updated :
      (i : ℕ) (v : FsNode)
      → find_node nodes mount name ≡ none
      → find_unused nodes ≡ some i
      → IsNode v
      → is_at mount name v ≡ true
      → Updated nodes mount name (some (view v)) (set nodes i v)
  fresh-Updated i v e f wf p =
      let (lt, u) = find_unused-free i f in
      put-Updated nodes mount name i v s lt wf (λ j _. find_node_absent e j)
        (λ m n _. unused_nowhere i u m n) p

  -- A node in place of the one that is found.
  found-Updated :
      (i : ℕ) (v : FsNode)
      → find_node nodes mount name ≡ some i
      → IsNode v
      → is_at mount name v ≡ true
      → Updated nodes mount name (some (view v)) (set nodes i v)
  found-Updated i v e wf p =
      let (lt, at) = find_node-is_at i e in
      put-Updated nodes mount name i v s lt wf (found_only i at)
        (λ m n ne. is_at_elsewhere mount m name n (node_at nodes i) at ne) p

  -- The node for a new path, made from the unused one at `i`, has the path and its sizes.
  module _ (name_len : ℕ) (l : length name ≡ name_len) (bound : name_len ≤ 30) where
    path_of_new : (old : List ℕ) → take name_len (copy_over old name) ≡ name
    path_of_new old =
        subst (λ n. take n (copy_over old name) ≡ name) l
          (take-append name (drop (length name) old))

    named-is_at :
        (v : FsNode) (old : List ℕ)
        → v.used ≡ true
        → v.mount ≡ mount
        → v.name_len ≡ name_len
        → v.name ≡ copy_over old name
        → is_at mount name v ≡ true
    named-is_at v old u m n c =
        let p : path_of v ≡ name = cc (n, c, path_of_new old) in
        rw (u, m, p) (ground (arith, eq_bytes_self name))

    pub mkdir-Changed :
        let (nodes', reply) = mkdir nodes mount name_len name in
        Changed nodes mount name nodes' reply none (some (true, []))
    unfolding mkdir
    mkdir-Changed = elim (Option-cases (find_node nodes mount name)) [
      | inr (i, e) ↦ simp (mkdir, e) (refused 4 (omega arith) refl refl)
      | inl e ↦ elim (Option-cases (find_unused nodes)) [
        | inl f ↦ simp (mkdir, e, f) (refused 3 (omega arith) refl refl)
        | inr (i, f) ↦
            let node = node_at nodes i in
            let z = s.sized i in
            let v : FsNode = record node {
              used = true;
              is_dir = true;
              name = copy_over node.name name;
              name_len = name_len;
              data_len = 0;
              mount = mount;
            } in
            let wf : IsNode v = record {
              name_whole = copy_over_size node.name name 30 z.name_whole (omega (arith, l));
              name_in = bound;
              data_whole = z.data_whole;
              data_in = omega arith;
            } in
            simp (mkdir, e, f)
              (changed refl (content-none nodes mount name e)
                (fresh-Updated i v e f wf (named-is_at v node.name refl refl refl refl)))
      ]
    ]

    module _ (data_len : ℕ) (bytes : List ℕ) (d : length bytes ≡ data_len)
        (fits : data_len ≤ 94) where
      bytes_of_new : (old : List ℕ) → take data_len (copy_over old bytes) ≡ bytes
      bytes_of_new old =
          subst (λ n. take n (copy_over old bytes) ≡ bytes) d
            (take-append bytes (drop (length bytes) old))

      store_file-none :
          find_node nodes mount name ≡ none
          → let (nodes', reply) = store_file nodes mount name_len name data_len bytes in
            Changed nodes mount name nodes' reply none (some (false, bytes))
      unfolding store_file
      store_file-none e = elim (Option-cases (find_unused nodes)) [
        | inl f ↦ simp (store_file, e, f) (refused 3 (omega arith) refl refl)
        | inr (i, f) ↦
            let node = node_at nodes i in
            let z = s.sized i in
            let v : FsNode = record {
              used = true;
              is_dir = false;
              name = copy_over node.name name;
              name_len = name_len;
              contents = copy_over node.contents bytes;
              data_len = data_len;
              mount = mount;
            } in
            let wf : IsNode v = record {
              name_whole = copy_over_size node.name name 30 z.name_whole (omega (arith, l));
              name_in = bound;
              data_whole = copy_over_size node.contents bytes 94 z.data_whole (omega (arith, d));
              data_in = fits;
            } in
            let u = fresh-Updated i v e f wf (named-is_at v node.name refl refl refl refl) in
            let shown : view v ≡ (false, bytes) =
              ap (λ b. (false, b)) (bytes_of_new node.contents) in
            simp (store_file, e, f)
              (changed refl (content-none nodes mount name e)
                (subst (λ w. Updated nodes mount name (some w) (set nodes i v)) shown u))
      ]

      store_file-some :
          (i : ℕ)
          → find_node nodes mount name ≡ some i
          → (node_at nodes i).is_dir ≡ false
          → let (nodes', reply) = store_file nodes mount name_len name data_len bytes in
            Changed nodes mount name nodes' reply
              (some (view (node_at nodes i)))
              (some (false, bytes))
      unfolding store_file
      store_file-some i e g =
          let node = node_at nodes i in
          let z = s.sized i in
          let v : FsNode = record node {
            is_dir = false;
            contents = copy_over node.contents bytes;
            data_len = data_len;
          } in
          let wf : IsNode v = record {
            name_whole = z.name_whole;
            name_in = z.name_in;
            data_whole = copy_over_size node.contents bytes 94 z.data_whole (omega (arith, d));
            data_in = fits;
          } in
          let at : is_at mount name v ≡ true = (find_node-is_at i e).1 in
          let u = found-Updated i v e wf at in
          let shown : view v ≡ (false, bytes) = ap (λ b. (false, b)) (bytes_of_new node.contents) in
          simp (store_file, e, g)
            (changed refl
              (content-some nodes mount name i e
                ∙ ap (λ x. some (x, take node.data_len node.contents)) g)
              (subst (λ w. Updated nodes mount name (some w) (set nodes i v)) shown u))

      -- Only a path that is no directory is written to.
      pub store_file-Changed :
          let (nodes', reply) = store_file nodes mount name_len name data_len bytes in
          (old : Option (Bool × List ℕ)) × ((b : List ℕ) → old ≢ some (true, b))
          × Changed nodes mount name nodes' reply old (some (false, bytes))
      unfolding store_file
      store_file-Changed = elim (Option-cases (find_node nodes mount name)) [
        | inl e ↦ (none, λ b q. cc q, store_file-none e)
        | inr (i, e) ↦ elim (Bool-cases (node_at nodes i).is_dir) [
          | inl g ↦ (none, λ b q. cc q, simp (store_file, e, g) (refused 4 (omega arith) refl refl))
          | inr g ↦ (some (view (node_at nodes i)), λ b q. cc (q, g), store_file-some i e g)
        ]
      ]

  pub delete-Changed :
      let (nodes', reply) = delete nodes mount name in
      (old : Bool × List ℕ) × Changed nodes mount name nodes' reply (some old) none
  unfolding delete
  delete-Changed = elim (Option-cases (find_node nodes mount name)) [
    | inl e ↦ ((false, []), simp (delete, e) (refused 2 (omega arith) refl refl))
    | inr (i, e) ↦
        let node = node_at nodes i in
        let v : FsNode = record node { used = false } in
        let z = s.sized i in
        let wf : IsNode v = record {
          name_whole = z.name_whole;
          name_in = z.name_in;
          data_whole = z.data_whole;
          data_in = z.data_in;
        } in
        let (lt, at) = find_node-is_at i e in
        (
          view node,
          simp (delete, e)
              (changed refl (content-some nodes mount name i e) (
                free-Updated nodes mount name i v s lt wf (found_only i at)
                  (λ m n ne. is_at_elsewhere mount m name n node at ne) refl)),
        )
  ]
