-- ===== src/Service/Fs/Views.antt =====
-- What the file service shows of a path.
use runix_os.Prelude.{
  ℕ, ◌≡◌, ◌≢◌, ◌⊎◌, inl, inr, sym, ap, ◌∙◌, arith, Bool, false, Bool-cases, none, some,
  Option-cases, List, [], ◌∷◌, ◌++◌, length, take, if◌then◌else◌, length-take,
}
use runix_os.Service.Log.{ne_bytes}
use runix_os.Service.Fs.Listing.{FsNode}
use runix_os.Service.Fs.{find_node, read, stat}
use runix_os.Service.Fs.Nodes.{node_at, content, IsFs, content-none, content-some, is_at_mount}
use runix_os.Service.Fs.Files.{find_node-is_at}

module _ (nodes : List FsNode) (mount : ℕ) (name : List ℕ) (s : IsFs nodes) where
  -- A read shows a file's length and bytes, or gives code 2: there is nothing, or a directory.
  pub read-content :
      ((read nodes mount name ≡ 2 ∷ [])
        × ((b : List ℕ) → content nodes mount name ≢ some (false, b)))
      ⊎ ((b : List ℕ) × (content nodes mount name ≡ some (false, b))
          × (read nodes mount name ≡ 0 ∷ length b ∷ b))
  unfolding read
  read-content = elim (Option-cases (find_node nodes mount name)) [
    | inl e ↦ inl (simp (read, e), λ b q. cc (q, content-none nodes mount name e))
    | inr (i, e) ↦
        let node = node_at nodes i in
        let c = content-some nodes mount name i e in
        let z = s.sized i in
        elim (Bool-cases node.is_dir) [
          | inl g ↦ inl (simp (read, e, g), λ b q. cc (q, c, g))
          | inr g ↦ inr (
            take node.data_len node.contents,
            c ∙ ap (λ x. some (x, take node.data_len node.contents)) g,
            simp (read, e, g)
                (ap (λ x. 0 ∷ x ∷ take node.data_len node.contents)
                  (sym (
                    length-take node.data_len node.contents
                      (omega (arith, z.data_in, z.data_whole))))),
          )
        ]
  ]

  pub stat-content :
      ((stat nodes mount name ≡ 2 ∷ []) × (content nodes mount name ≡ none))
      ⊎ ((dir : Bool) × (b : List ℕ) × (content nodes mount name ≡ some (dir, b))
          × (stat nodes mount name
              ≡ 0 ∷ (if dir then 1 else 0) ∷ (ne_bytes 8 (length b) ++ (mount ∷ []))))
  unfolding stat
  stat-content = elim (Option-cases (find_node nodes mount name)) [
    | inl e ↦ inl (simp (stat, e), content-none nodes mount name e)
    | inr (i, e) ↦
        let node = node_at nodes i in
        let z = s.sized i in
        let n = length-take node.data_len node.contents (omega (arith, z.data_in, z.data_whole)) in
        let m = is_at_mount mount name node (find_node-is_at nodes mount name s i e).1 in
        inr (
          node.is_dir,
          take node.data_len node.contents,
          content-some nodes mount name i e,
          simp (stat, e, n, m),
        )
  ]
