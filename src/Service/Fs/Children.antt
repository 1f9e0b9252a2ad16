-- ===== src/Service/Fs/Children.antt =====
-- The nodes that lie directly under a path, and what one node adds to a listing.
use Prim.{¬◌}
use runix_os.Prelude.{
  ℕ, zero, suc, ◌+◌, ◌<◌, ◌≤◌, ◌≡◌, ◌≢◌, inl, inr, refl, sym, ap, ◌∙◌, arith, true, false, ◌&&◌,
  Bool-cases, List, [], ◌∷◌, ◌++◌, ◌==◌, length, drop, take, byte_at, leb, eq_bytes, eq_bytes→≡,
  eq_bytes_self, starts_with, contains, drop-append,
}
use runix_os.Service.Fs.Listing.{FsNode, path_of, slash, Output, add_suffix, add_node}

-- The node is in use, belongs to the mount, and lies directly under the prefix, as `suffix`.
pub record IsChild (mount : ℕ) (name prefix : List ℕ) (node : FsNode) (suffix : List ℕ)
    : Type 0 where
  pub used : node.used ≡ true
  pub mount_is : node.mount ≡ mount
  pub path_is : take node.name_len node.name ≡ prefix ++ suffix
  pub not_itself : take node.name_len node.name ≢ name
  pub no_slash : (i : ℕ) → i < length suffix → byte_at suffix i ≢ 47

starts_with-true : (xs ys : List ℕ) → starts_with xs ys ≡ true → xs ≡ ys ++ drop (length ys) xs
starts_with-true xs [] h = refl
starts_with-true [] (y ∷ ys) h = absurd (cc h)
starts_with-true (x ∷ xs) (y ∷ ys) h = elim (Bool-cases (x == y)) [
  | inl e ↦ ground (arith, starts_with-true xs ys)
  | inr e ↦ absurd (ground arith)
]

starts_with-append : (ys zs : List ℕ) → starts_with (ys ++ zs) ys ≡ true
starts_with-append [] zs = refl
starts_with-append (y ∷ ys) zs = ground (arith, starts_with-append ys zs)

contains-false :
    (xs : List ℕ) (b : ℕ) → contains xs b ≡ false → (i : ℕ) → i < length xs → byte_at xs i ≢ b
contains-false [] b h i l e = absurd (omega (arith, l))
contains-false (x ∷ xs) b h zero l e = absurd (ground arith)
contains-false (x ∷ xs) b h (suc i) l e = contains-false xs b (ground arith) i (omega (arith, l)) e

contains-true :
    (xs : List ℕ) (b : ℕ) → contains xs b ≡ true → (i : ℕ) × (i < length xs) × (byte_at xs i ≡ b)
contains-true [] b h = absurd (cc h)
contains-true (x ∷ xs) b h = elim (Bool-cases (x == b)) [
  | inl e ↦ (0, omega arith, ground arith)
  | inr e ↦ let (i, l, at) = contains-true xs b (ground arith) in (suc i, omega (arith, l), at)
]

module _ (mount : ℕ) (name prefix : List ℕ) (node : FsNode) (out : List ℕ) (count : ℕ) where
  -- What one node adds to the reply.
  pub data Filled (r : Output) : Type 0 where
    added :
        (suffix : List ℕ)
        → IsChild mount name prefix node suffix
        → length out + length suffix + 1 ≤ 126
        → r ≡ (out ++ (suffix ++ (10 ∷ [])), count + 1)
        → Filled r
    too_long :
        (suffix : List ℕ)
        → IsChild mount name prefix node suffix
        → 126 < length out + length suffix + 1
        → r ≡ (out, count)
        → Filled r
    skipped :
        ((suffix : List ℕ) → ¬ IsChild mount name prefix node suffix) → r ≡ (out, count) → Filled r

  -- A node under the prefix that is not the directory itself.
  under-Filled :
      node.used ≡ true
      → node.mount ≡ mount
      → path_of node ≡ prefix ++ drop (length prefix) (path_of node)
      → path_of node ≢ name
      → Filled (add_suffix (drop (length prefix) (path_of node)) (out, count))
  unfolding add_suffix
  under-Filled used m at ne =
      let suffix = drop (length prefix) (path_of node) in
      elim (Bool-cases (contains suffix 47)) [
        | inl e ↦
            let (i, l, b) = contains-true suffix 47 e in
            simp (add_suffix, e)
              (skipped
                (λ s c.
                  let same : suffix ≡ s =
                    ap (drop (length prefix)) c.path_is ∙ drop-append prefix s in
                  c.no_slash i (omega (arith, l, ap length same))
                    (ap (λ x. byte_at x i) (sym same) ∙ b))
                refl)
        | inr e ↦
            let child : IsChild mount name prefix node suffix = record {
              used = used;
              mount_is = m;
              path_is = at;
              not_itself = ne;
              no_slash = contains-false suffix 47 e;
            } in
            elim (Bool-cases (leb (2 + length out + length suffix + 1) 128)) [
              | inl f ↦ simp (add_suffix, e, f) (added suffix child (ground (arith, f)) refl)
              | inr f ↦ simp (add_suffix, e, f) (too_long suffix child (ground (arith, f)) refl)
            ]
      ]

  pub add_node-Filled :
      (eq_bytes name slash ≡ true → prefix ≡ slash)
      → Filled (add_node mount name prefix node (out, count))
  unfolding add_node
  add_node-Filled root =
      let path = path_of node in
      elim (Bool-cases (node.used && node.mount == mount)) [
        | inr e ↦
            simp (add_node, e)
              (skipped (λ s c. absurd (ground (arith, e, c.used, c.mount_is))) refl)
        | inl e ↦ elim (Bool-cases (starts_with path prefix)) [
          | inr f ↦
              let none : (s : List ℕ) → ¬ IsChild mount name prefix node s = λ s c.
                cc (f, ap (λ p. starts_with p prefix) c.path_is, starts_with-append prefix s) in
              elim (Bool-cases (eq_bytes name slash)) [
                | inr g ↦ simp (add_node, e, f, g) (skipped none refl)
                | inl g ↦
                    let h : starts_with path slash ≡ false =
                      sym (ap (starts_with path) (root g)) ∙ f in
                    simp (add_node, e, f, g, h) (skipped none refl)
              ]
          | inl f ↦ elim (Bool-cases (eq_bytes path name)) [
            | inr g ↦
                simp (add_node, e, f, g)
                  (under-Filled (ground (arith, e)) (ground (arith, e))
                    (starts_with-true path prefix f)
                    (λ q. cc (g, ap (λ p. eq_bytes p name) q, eq_bytes_self name)))
            | inl g ↦
                let itself : (s : List ℕ) → ¬ IsChild mount name prefix node s =
                  λ s c. c.not_itself (eq_bytes→≡ path name g) in
                elim (Bool-cases (eq_bytes name slash)) [
                  | inr h ↦ simp (add_node, e, f, g, h) (skipped itself refl)
                  | inl h ↦
                      let a : starts_with path slash ≡ true =
                        sym (ap (starts_with path) (root h)) ∙ f in
                      let b : eq_bytes path slash ≡ true =
                        sym (ap (eq_bytes path) (eq_bytes→≡ name slash h)) ∙ g in
                      simp (add_node, e, f, g, h, a, b) (skipped itself refl)
                ]
          ]
        ]
      ]
