-- ===== src/Service/Fs/Directory.antt =====
-- What the listing of a directory contains, said independently of the loop that fills the reply.
use Prim.{¬◌}
use runix_os.Prelude.{
  ℕ, suc, ◌+◌, ◌-◌, ◌<◌, ◌≤◌, ◌≡◌, ◌≢◌, ◌⊎◌, inl, inr, refl, sym, ap, ◌∙◌, arith, true, Bool-cases,
  Option-cases, subst, some, List, [], ◌∷◌, ◌++◌, ◌==◌, length, byte_at, eq_bytes, eq_bytes→≡,
  length-append,
}
use runix_os.Service.Fs.Children.{IsChild, added, too_long, skipped, add_node-Filled}
use runix_os.Service.Fs.Listing.{FsNode, slash, Output, add_nodes, prefix_of, list_nodes}

-- The lines that the nodes give, in their order, when `n` of the 126 bytes are taken: each child has its
-- line if it still fits with its newline, and nothing else has one.
pub data Lines (mount : ℕ) (name prefix : List ℕ) : List FsNode → ℕ → List (List ℕ) → Type 0 where
  done : (n : ℕ) → Lines mount name prefix [] n []
  line :
      (node : FsNode) (nodes : List FsNode) (n : ℕ) (suffix : List ℕ) (lines : List (List ℕ))
      → IsChild mount name prefix node suffix
      → n + length suffix + 1 ≤ 126
      → Lines mount name prefix nodes (n + length suffix + 1) lines
      → Lines mount name prefix (node ∷ nodes) n (suffix ∷ lines)
  no_room :
      (node : FsNode) (nodes : List FsNode) (n : ℕ) (suffix : List ℕ) (lines : List (List ℕ))
      → IsChild mount name prefix node suffix
      → 126 < n + length suffix + 1
      → Lines mount name prefix nodes n lines
      → Lines mount name prefix (node ∷ nodes) n lines
  elsewhere :
      (node : FsNode) (nodes : List FsNode) (n : ℕ) (lines : List (List ℕ))
      → ((suffix : List ℕ) → ¬ IsChild mount name prefix node suffix)
      → Lines mount name prefix nodes n lines
      → Lines mount name prefix (node ∷ nodes) n lines

-- The lines with their newlines.
unfoldable pub text_of : List (List ℕ) → List ℕ
text_of [] = []
text_of (l ∷ lines) = l ++ (10 ∷ text_of lines)

-- A path that is not empty, with a slash at its end.
abbrev pub IsPrefix : List ℕ → List ℕ → Type 0
IsPrefix name prefix =
    (0 < length name)
    × (((byte_at name (length name - 1) ≡ 47) × (prefix ≡ name))
        ⊎ ((byte_at name (length name - 1) ≢ 47) × (prefix ≡ name ++ (47 ∷ []))))

-- The reply of a listing: the code, the number of lines, and the lines.
pub record Listed (nodes : List FsNode) (mount : ℕ) (name reply : List ℕ) : Type 0 where
  pub prefix : List ℕ
  pub lines : List (List ℕ)
  pub prefix_is : IsPrefix name prefix
  pub lines_are : Lines mount name prefix nodes 0 lines
  pub reply_is : reply ≡ 0 ∷ length lines ∷ text_of lines

append_line : (out l rest : List ℕ) → (out ++ (l ++ (10 ∷ []))) ++ rest ≡ out ++ (l ++ (10 ∷ rest))
append_line [] [] rest = refl
append_line [] (b ∷ l) rest = ap (◌∷◌ b) (append_line [] l rest)
append_line (b ∷ out) l rest = ap (◌∷◌ b) (append_line out l rest)

append_nothing : (out : List ℕ) → out ++ [] ≡ out
append_nothing [] = refl
append_nothing (b ∷ out) = ap (◌∷◌ b) (append_nothing out)

-- What the loop gives from `out` and `count` on.
abbrev Result : ℕ → List ℕ → List ℕ → List FsNode → Output → Output → Type 0
Result mount name prefix nodes (out, count) r =
    (lines : List (List ℕ)) × Lines mount name prefix nodes (length out) lines
    × (r ≡ (out ++ text_of lines, count + length lines))

add_nodes-Lines :
    (mount : ℕ) (name prefix : List ℕ) (nodes : List FsNode) (out : List ℕ) (count : ℕ)
    → (eq_bytes name slash ≡ true → prefix ≡ slash)
    → Result mount name prefix nodes (out, count) (add_nodes mount name prefix nodes (out, count))
unfolding add_nodes text_of
add_nodes-Lines mount name prefix [] out count root =
    let e : count ≡ count + 0 = omega arith in
    ([], done (length out), (λ i. (sym (append_nothing out) i, e i)))
add_nodes-Lines mount name prefix (node ∷ nodes) out count root =
    elim (add_node-Filled mount name prefix node out count root) [
      | added suffix child fits r ↦
          let out' = out ++ (suffix ++ (10 ∷ [])) in
          let n : length out' ≡ length out + length suffix + 1 =
            omega
              (arith, length-append out (suffix ++ (10 ∷ [])), length-append suffix (10 ∷ [])) in
          let (lines, l, q) = add_nodes-Lines mount name prefix nodes out' (count + 1) root in
          let more : count + 1 + length lines ≡ count + suc (length lines) = omega arith in
          (
            suffix ∷ lines,
            line node nodes (length out) suffix lines child fits
                (subst (λ m. Lines mount name prefix nodes m lines) n l),
            ap (add_nodes mount name prefix nodes) r
                ∙ q
                ∙ (λ i. (append_line out suffix (text_of lines) i, more i)),
          )
      | too_long suffix child full r ↦
          let (lines, l, q) = add_nodes-Lines mount name prefix nodes out count root in
          (
            lines,
            no_room node nodes (length out) suffix lines child full l,
            ap (add_nodes mount name prefix nodes) r ∙ q,
          )
      | skipped outside r ↦
          let (lines, l, q) = add_nodes-Lines mount name prefix nodes out count root in
          (
            lines,
            elsewhere node nodes (length out) lines outside l,
            ap (add_nodes mount name prefix nodes) r ∙ q,
          )
    ]

root_prefix :
    (name prefix : List ℕ)
    → prefix_of (length name) name ≡ some prefix
    → eq_bytes name slash ≡ true
    → prefix ≡ slash
unfolding prefix_of
root_prefix name prefix e h = ground (arith, e, h)

prefix_of-IsPrefix :
    (name prefix : List ℕ) → prefix_of (length name) name ≡ some prefix → IsPrefix name prefix
unfolding prefix_of
prefix_of-IsPrefix name prefix e = elim (Bool-cases (eq_bytes name slash)) [
  | inl h ↦
      let q = eq_bytes→≡ name slash h in
      let p : prefix ≡ name = root_prefix name prefix e h ∙ sym q in
      subst (λ n. prefix ≡ n → IsPrefix n prefix) (sym q) (λ p. (omega arith, inl (refl, p))) p
  | inr h ↦ elim (Bool-cases (length name == 0)) [
    | inl z ↦ absurd (cc (simp (prefix_of, h, z) at e))
    | inr z ↦ elim (Bool-cases (byte_at name (length name - 1) == 47)) [
      | inl b ↦
          let f = simp (prefix_of, h, z, b) at e in
          (ground (arith, z), inl (ground (arith, b), ground (arith, f)))
      | inr b ↦
          let f = simp (prefix_of, h, z, b) at e in
          (ground (arith, z), inr (ground (arith, b), ground (arith, f)))
    ]
  ]
]

-- The reply of a listing is the directory's.
pub list_nodes-Listed :
    (nodes : List FsNode) (mount : ℕ) (name reply : List ℕ)
    → list_nodes nodes mount (length name) name ≡ some reply
    → Listed nodes mount name reply
unfolding list_nodes
list_nodes-Listed nodes mount name reply e = elim (Option-cases (prefix_of (length name) name)) [
  | inl f ↦ absurd (cc (simp (list_nodes, f) at e))
  | inr (prefix, f) ↦
      let (lines, l, q) =
        add_nodes-Lines mount name prefix nodes [] 0 (root_prefix name prefix f) in
      let from_zero : 0 + length lines ≡ length lines = omega arith in
      let shown = simp (list_nodes, f, q) at e in
      record {
        prefix = prefix;
        lines = lines;
        prefix_is = prefix_of-IsPrefix name prefix f;
        lines_are = l;
        reply_is = cc (shown, from_zero);
      }
]
