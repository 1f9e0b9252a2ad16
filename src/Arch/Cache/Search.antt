-- ===== src/Arch/Cache/Search.antt =====
-- The two searches of a set in the cache simulation.
use runix_os.Prelude.{
  ℕ, zero, suc, ◌+◌, ◌<◌, ◌≤◌, ◌≡◌, ◌≢◌, ◌⊎◌, inl, inr, refl, sym, ap, ◌∙◌, arith, Bool, true,
  false, not, ◌&&◌, Bool-cases, none, some, List, ◌==◌, ltb, if◌then◌else◌,
}
use runix_os.Arch.Cache.{SimCacheLine, line, find_hit, find_victim}

-- A valid line with the tag, among the `n` from `from` on.
pub record Present (num_lines : ℕ) (cache : List SimCacheLine) (tag from n : ℕ) : Type 0 where
  pub at : ℕ
  pub after : from ≤ at
  pub before : at < from + n
  pub in_range : at < num_lines
  pub is_valid : (line cache at).valid ≡ true
  pub is_tag : (line cache at).tag ≡ tag

pub find_hit-Present :
    (num_lines : ℕ) (cache : List SimCacheLine) (tag from n i : ℕ)
    → find_hit num_lines cache tag from n ≡ some i
    → (p : Present num_lines cache tag from n) × (p.at ≡ i)
unfolding find_hit
find_hit-Present num_lines cache tag from zero i h = absurd (cc h)
find_hit-Present num_lines cache tag from (suc n) i h =
    elim (Bool-cases
      (ltb from num_lines && ((line cache from).valid && (line cache from).tag == tag))) [
        | inl e ↦ (
          record {
            at = from;
            after = omega arith;
            before = omega arith;
            in_range = ground (arith, e);
            is_valid = ground (arith, e);
            is_tag = ground (arith, e);
          },
          grind (arith, simp e at h),
        )
        | inr e ↦
            let (p, q) = find_hit-Present num_lines cache tag (from + 1) n i (simp e at h) in
            (
              record {
                at = p.at;
                after = omega (arith, p.after);
                before = omega (arith, p.before);
                in_range = p.in_range;
                is_valid = p.is_valid;
                is_tag = p.is_tag;
              },
              q,
            )
      ]

pub Present-find_hit :
    (num_lines : ℕ) (cache : List SimCacheLine) (tag from n : ℕ)
    → Present num_lines cache tag from n
    → (i : ℕ) × (find_hit num_lines cache tag from n ≡ some i)
unfolding find_hit
Present-find_hit num_lines cache tag from zero p = absurd (omega (arith, p.after, p.before))
Present-find_hit num_lines cache tag from (suc n) p =
    elim (Bool-cases
      (ltb from num_lines && ((line cache from).valid && (line cache from).tag == tag))) [
        | inl e ↦ (from, simp e)
        | inr e ↦
            let ne : p.at ≢ from = λ q. found_there num_lines cache tag from (suc n) p q e in
            let (i, f) = Present-find_hit num_lines cache tag (from + 1) n (record {
              at = p.at;
              after = omega (arith, p.after, ne);
              before = omega (arith, p.before);
              in_range = p.in_range;
              is_valid = p.is_valid;
              is_tag = p.is_tag;
            }) in
            (i, simp (e, f))
      ]
  where
    found_there :
        (num_lines : ℕ) (cache : List SimCacheLine) (tag from n : ℕ)
        → (p : Present num_lines cache tag from n) → p.at ≡ from
        → (ltb from num_lines && ((line cache from).valid && (line cache from).tag == tag)) ≡ false
        → ⊥
    found_there num_lines cache tag from n p q e =
        let v : (line cache from).valid ≡ true =
          sym (ap (λ x. (line cache x).valid) q) ∙ p.is_valid in
        let t : (line cache from).tag ≡ tag = sym (ap (λ x. (line cache x).tag) q) ∙ p.is_tag in
        ground (arith, p.in_range, q, v, t, e)

-- The candidate for the victim after one more line.
chosen :
    (older : Bool) (victim from lru_idx n : ℕ)
    → (victim ≡ (if older then from else lru_idx)) ⊎ ((from + 1 ≤ victim) × (victim < from + 1 + n))
    → (victim ≡ lru_idx) ⊎ ((from ≤ victim) × (victim < from + suc n))
chosen older victim from lru_idx n (inr (a, b)) = inr (omega (arith, a), omega (arith, b))
chosen true victim from lru_idx n (inl e) = inr (omega (arith, e), omega (arith, e))
chosen false victim from lru_idx n (inl e) = inl e

-- The victim is an empty line of the set, or all its lines are valid and the victim is one of them.
pub find_victim_lem :
    (num_lines : ℕ) (cache : List SimCacheLine) (from n lru_idx min_lru : ℕ)
    → let (empty, victim) = find_victim num_lines cache from n lru_idx min_lru in
      ((i : ℕ) × (empty ≡ some i) × (from ≤ i) × (i < from + n) × (i < num_lines))
      ⊎ ((empty ≡ none)
          × ((victim ≡ lru_idx) ⊎ ((from ≤ victim) × (victim < from + n)))
          × ((i : ℕ) → from ≤ i → i < from + n → i < num_lines → (line cache i).valid ≡ true))
unfolding find_victim
find_victim_lem num_lines cache from zero lru_idx min_lru =
    inr (refl, inl refl, λ i a b. absurd (omega (arith, a, b)))
find_victim_lem num_lines cache from (suc n) lru_idx min_lru =
    let older =
      ltb from num_lines && ((line cache from).valid && ltb (line cache from).lru min_lru) in
    let next_idx = if older then from else lru_idx in
    let next_lru = if older then (line cache from).lru else min_lru in
    elim (Bool-cases (ltb from num_lines && not (line cache from).valid)) [
      | inl e ↦ simp e (inl (from, refl, omega arith, omega arith, ground (arith, e)))
      | inr e ↦ elim (find_victim_lem num_lines cache (from + 1) n next_idx next_lru) [
        | inl (i, f, a, b, c) ↦ simp e (inl (i, f, omega (arith, a), omega (arith, b), c))
        | inr (f, v, all) ↦ simp e (
            inr (
              f,
              chosen older (find_victim num_lines cache (from + 1) n next_idx next_lru).1 from
                  lru_idx n v,
              λ i a b c. elim (Bool-cases (i == from)) [
                | inr g ↦ all i (ground (arith, a, g)) (omega (arith, b)) c
                | inl g ↦
                    let q : i ≡ from = ground (arith, g) in
                    let here : (line cache from).valid ≡ true = ground (arith, e, c, q) in
                    ap (λ x. (line cache x).valid) q ∙ here
              ],
            ))
      ]
    ]
