-- ===== src/Memory/Range.antt =====
-- What a range that passes `validate_user_range` may be used for.
use Prim.{¬◌}
use runix_os.Prelude.{
  ℕ, zero, suc, ◌+◌, ◌-◌, ◌*◌, ◌/◌, ◌^◌, ◌≤◌, ◌<◌, ◌≡◌, ◌≢◌, ◌⊎◌, inl, inr, arith, Bool, true,
  false, Option, some, ◌==◌, Bool-cases, subst, ltb,
}
use runix_os.Memory.Mapped.{IsMapped, page_ok-IsMapped, page_ok-not_IsMapped}
use runix_os.Memory.{
  Space, page_ok, check_pages, page_of, user_space_upper_bound, validate_user_range,
}

-- The walk over the pages `p..=q` passes if all are usable, and fails at one that is not.
abbrev Walked : Space → Bool → ℕ → ℕ → Option Bool → Type 0
Walked space writeable p q r =
    ((r ≡ some true) × ((i : ℕ) → p ≤ i → i ≤ q → page_ok space writeable (i * 4096) ≡ true))
    ⊎ ((r ≡ some false)
        × ((i : ℕ) × (p ≤ i) × (i ≤ q) × (page_ok space writeable (i * 4096) ≡ false)))

check_pages-Walked :
    (fuel : ℕ) (space : Space) (writeable : Bool) (p q : ℕ)
    → p ≤ q
    → q < p + fuel
    → Walked space writeable p q (check_pages fuel space writeable (p * 4096) (q * 4096))
unfolding check_pages
check_pages-Walked zero space writeable p q le lt = absurd (omega arith)
check_pages-Walked (suc fuel) space writeable p q le lt =
    elim (Bool-cases (page_ok space writeable (p * 4096))) [
      | inr bad ↦ inr (simp (bad, check_pages), (p, omega arith, le, bad))
      | inl good ↦ elim (Bool-cases (p * 4096 == q * 4096)) [
        | inl e ↦
            let same : p ≡ q = ground arith in
            inl (
              simp (good, e, check_pages),
              λ i a b.
                  let here : p ≡ i = omega arith in
                  subst (λ j. page_ok space writeable (j * 4096) ≡ true) here good,
            )
        | inr e ↦
            let next : (p + 1) * 4096 ≡ p * 4096 + 4096 = omega arith in
            let less : p < q = ground arith in
            let rest =
              check_pages-Walked fuel space writeable (p + 1) q (omega arith) (omega arith) in
            elim rest [
              | inl (r, all) ↦ inl (
                simp (good, e, check_pages, ← next, r),
                λ i a b. elim (Bool-cases (p == i)) [
                  | inl h ↦
                      let here : p ≡ i = ground arith in
                      subst (λ j. page_ok space writeable (j * 4096) ≡ true) here good
                  | inr h ↦ all i (ground arith) b
                ],
              )
              | inr (r, (i, a, b, bad)) ↦
                  inr (simp (good, e, check_pages, ← next, r), (i, omega arith, b, bad))
            ]
      ]
    ]

-- A page that the range meets has a byte of the range on it.
byte_on_page :
    (ptr end i : ℕ)
    → ptr / 4096 ≤ i
    → i * 4096 < end
    → ptr < end
    → (a : ℕ) × (ptr ≤ a) × (a < end) × (page_of a ≡ i * 4096)
byte_on_page ptr end i lo hi some_byte = elim (Bool-cases (ltb (i * 4096) ptr)) [
  | inl e ↦
      let before : i * 4096 < ptr = ground (arith, e) in
      (ptr, omega arith, some_byte, omega (arith, before))
  | inr e ↦ let after : ptr ≤ i * 4096 = ground (arith, e) in (i * 4096, after, hi, omega arith)
]

-- The check by the pages on which the bytes of the range lie.
pub validate_user_range_pages :
    (space : Space) (ptr len : ℕ) (writeable : Bool)
    → ((validate_user_range space ptr len writeable ≡ some true)
        × ((len ≡ 0)
            ⊎ ((ptr + len ≤ user_space_upper_bound + 1)
                × ((a : ℕ)
                    → ptr ≤ a
                    → a < ptr + len
                    → page_ok space writeable (page_of a) ≡ true))))
      ⊎ ((validate_user_range space ptr len writeable ≡ some false)
          × (len ≢ 0)
          × ((user_space_upper_bound + 1 < ptr + len)
              ⊎ ((a : ℕ) × (ptr ≤ a)
                  × (a < ptr + len)
                  × (page_ok space writeable (page_of a) ≡ false))))
unfolding validate_user_range
validate_user_range_pages space ptr len writeable = elim (Bool-cases (len == 0)) [
  | inl e ↦ inl (ground arith, inl (ground arith))
  | inr e ↦ elim (Bool-cases (ltb (user_space_upper_bound + 1) (ptr + len))) [
    | inl over ↦ inr (ground arith, ground arith, inl (ground arith))
    | inr fits ↦
        let pages =
          check_pages-Walked (len / 4096 + 2) space writeable (ptr / 4096) ((ptr + len - 1) / 4096)
            (ground arith) (ground arith) in
        elim pages [
          | inl (r, all) ↦ inl (
            ground arith,
            inr (ground arith, λ a lo hi. all (a / 4096) (ground arith) (ground arith)),
          )
          | inr (r, (i, lo, hi, bad)) ↦
              let (a, from, to, on) =
                byte_on_page ptr (ptr + len) i lo (ground arith) (ground arith) in
              inr (ground arith, ground arith, inr (a, from, to, rw on bad))
        ]
  ]
]

-- The check ends, and passes exactly the ranges that are empty or lie in the lower half with every byte
-- mapped by four entries, one of each level, that are present, user-accessible and, if `writeable`,
-- writeable; what it refuses is not empty, and leaves the lower half or has a byte that is not so
-- mapped.
pub validate_user_range_lem :
    (space : Space) (ptr len : ℕ) (writeable : Bool)
    → ((validate_user_range space ptr len writeable ≡ some true)
        × ((len ≡ 0)
            ⊎ ((ptr + len ≤ 2 ^ 47)
                × ((a : ℕ) → ptr ≤ a → a < ptr + len → IsMapped space writeable a))))
      ⊎ ((validate_user_range space ptr len writeable ≡ some false)
          × (len ≢ 0)
          × ((2 ^ 47 < ptr + len)
              ⊎ ((a : ℕ) × (ptr ≤ a) × (a < ptr + len) × (¬ IsMapped space writeable a))))
validate_user_range_lem space ptr len writeable =
    elim (validate_user_range_pages space ptr len writeable) [
      | inl (r, inl z) ↦ inl (r, inl z)
      | inl (r, inr (fits, all)) ↦
          inl (r, inr (fits, λ a lo hi. page_ok-IsMapped space writeable a (all a lo hi)))
      | inr (r, some_len, inl over) ↦ inr (r, some_len, inl over)
      | inr (r, some_len, inr (a, lo, hi, bad)) ↦
          inr (r, some_len, inr (a, lo, hi, page_ok-not_IsMapped space writeable a bad))
    ]
