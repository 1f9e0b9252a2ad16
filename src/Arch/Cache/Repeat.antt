-- ===== src/Arch/Cache/Repeat.antt =====
-- An address that was just accessed is in the cache.
use runix_os.Prelude.{
  ℕ, ◌+◌, ◌*◌, ◌/◌, ◌%◌, ◌<◌, ◌≤◌, ◌≡◌, inl, inr, refl, sym, ap, ◌∙◌, subst, arith, true, some,
  Option-cases, length, ltb, get_or-set_self, set, word_max,
}
use native.Mathlib.Nat.{div-mul-le_self, mul-le-mul_right, mod-lt}
use runix_os.Arch.Cache.{
  CacheConfig, SimCacheLine, Sim, empty_line, line, find_hit, find_victim, hit, miss, access,
  simulated, set_start, tag_of, num_sets, line_addr,
}
use runix_os.Arch.Cache.Accounts.{IsConfig, num_sets-positive}
use runix_os.Arch.Cache.Search.{Present, find_hit-Present, Present-find_hit, find_victim_lem}

-- The lines of an address's set are all simulated, where the configuration has at most 1024 lines.
set_end :
    (cfg : CacheConfig) (addr : ℕ) → IsConfig cfg → set_start cfg addr + cfg.assoc ≤ cfg.num_lines
set_end cfg addr w =
    let positive : 0 < num_sets cfg = ground (arith, num_sets-positive cfg w) in
    let s : line_addr cfg addr % num_sets cfg < num_sets cfg =
      mod-lt (line_addr cfg addr) positive in
    let a =
      mul-le-mul_right {m = line_addr cfg addr % num_sets cfg + 1} {n = num_sets cfg} cfg.assoc
        (omega (arith, s)) in
    let b = div-mul-le_self cfg.num_lines cfg.assoc in omega (arith, a, b)

module _ (cfg : CacheConfig) (sim : Sim) (addr : ℕ) (w : IsConfig cfg) (fits : cfg.num_lines ≤ 1024)
    (whole : length sim.cache ≡ 1024) where
  -- A line of the set that gets the tag, and is valid, is there afterwards.
  put-Present :
      (i : ℕ) (v : SimCacheLine)
      → set_start cfg addr ≤ i
      → i < set_start cfg addr + cfg.assoc
      → v.valid ≡ true
      → v.tag ≡ tag_of cfg addr
      → Present (simulated cfg) (set sim.cache i v) (tag_of cfg addr) (set_start cfg addr) cfg.assoc
  put-Present i v a b valid tag =
      let small : i < simulated cfg = omega (arith, b, set_end cfg addr w, fits) in
      let e : line (set sim.cache i v) i ≡ v =
        get_or-set_self sim.cache i v empty_line (omega (arith, whole, small)) in
      record {
        at = i;
        after = a;
        before = b;
        in_range = small;
        is_valid = ap (λ x. x.valid) e ∙ valid;
        is_tag = ap (λ x. x.tag) e ∙ tag;
      }

  hit-Present :
      (i : ℕ)
      → find_hit (simulated cfg) sim.cache (tag_of cfg addr) (set_start cfg addr) cfg.assoc ≡ some i
      → Present
          (simulated cfg)
          (hit sim (sim.lru_counter + 1) i).cache
          (tag_of cfg addr)
          (set_start cfg addr)
          cfg.assoc
  unfolding hit
  hit-Present i e =
      let (p, q) =
        find_hit-Present (simulated cfg) sim.cache (tag_of cfg addr) (set_start cfg addr) cfg.assoc
          i e in
      put-Present i (record (line sim.cache i) { lru = sim.lru_counter + 1 })
        (omega (arith, p.after, q)) (omega (arith, p.before, q))
        (sym (ap (λ x. (line sim.cache x).valid) q) ∙ p.is_valid)
        (sym (ap (λ x. (line sim.cache x).tag) q) ∙ p.is_tag)

  miss-Present :
      Present
        (simulated cfg)
        (miss cfg sim (sim.lru_counter + 1) addr).cache
        (tag_of cfg addr)
        (set_start cfg addr)
        cfg.assoc
  unfolding miss
  miss-Present =
      let from = set_start cfg addr in
      let v = find_victim (simulated cfg) sim.cache from cfg.assoc from word_max in
      elim (find_victim_lem (simulated cfg) sim.cache from cfg.assoc from word_max) [
        | inl (i, e, a, b, c) ↦
            let l : ltb i (simulated cfg) ≡ true = ground (arith, c) in
            simp (miss, e, l)
              (put-Present i
                (record { valid = true; tag = tag_of cfg addr; lru = sim.lru_counter + 1 }) a b refl
                refl)
        | inr (e, r, all) ↦
            let a : from ≤ v.1 = elim r [ inl q ↦ omega (arith, q) | inr (a, b) ↦ a ] in
            let b : v.1 < from + cfg.assoc = elim r [
              | inl q ↦ omega (arith, q, w.assoc_some)
              | inr (a, b) ↦ b
            ] in
            let small : v.1 < simulated cfg = omega (arith, b, set_end cfg addr w, fits) in
            let l : ltb v.1 (simulated cfg) ≡ true = ground (arith, small) in
            simp (miss, e, l)
              (put-Present v.1
                (record (line sim.cache v.1) { tag = tag_of cfg addr; lru = sim.lru_counter + 1 }) a
                b (all v.1 a b small) refl)
      ]

  access-Present :
      Present
        (simulated cfg)
        (access cfg sim addr).cache
        (tag_of cfg addr)
        (set_start cfg addr)
        cfg.assoc
  unfolding access
  access-Present =
      elim (Option-cases
        (find_hit (simulated cfg) sim.cache (tag_of cfg addr) (set_start cfg addr) cfg.assoc)) [
          | inl e ↦ simp (access, e) miss-Present
          | inr (i, e) ↦ simp (access, e) (hit-Present i e)
        ]

-- An access whose line is found is counted as a hit alone.
access_hit :
    (cfg : CacheConfig) (sim : Sim) (addr i : ℕ)
    → find_hit (simulated cfg) sim.cache (tag_of cfg addr) (set_start cfg addr) cfg.assoc ≡ some i
    → let sim' = access cfg sim addr in
      (sim'.stats.hits ≡ sim.stats.hits + 1)
      × (sim'.stats.misses ≡ sim.stats.misses)
      × (sim'.stats.evictions ≡ sim.stats.evictions)
unfolding access hit
access_hit cfg sim addr i e = simp (access, hit, e) (refl, refl, refl)

-- An access to the line of the address that was accessed just before is a hit: it adds one to the hits and
-- nothing to the misses and evictions, whatever the cache held. The cache has at most 1024 lines.
pub access-access :
    (cfg : CacheConfig) (sim : Sim) (addr again : ℕ)
    → IsConfig cfg
    → cfg.num_lines ≤ 1024
    → length sim.cache ≡ 1024
    → line_addr cfg again ≡ line_addr cfg addr
    → let sim' = access cfg sim addr in
      let sim'' = access cfg sim' again in
      (sim''.stats.hits ≡ sim'.stats.hits + 1)
      × (sim''.stats.misses ≡ sim'.stats.misses)
      × (sim''.stats.evictions ≡ sim'.stats.evictions)
access-access cfg sim addr again w fits whole same =
    let sim' = access cfg sim addr in
    let there = access-Present cfg sim addr w fits whole in
    let (i, e) =
      Present-find_hit (simulated cfg) sim'.cache (tag_of cfg addr) (set_start cfg addr) cfg.assoc
        there in
    access_hit cfg sim' again i (
      subst
        (λ l.
          find_hit (simulated cfg) sim'.cache (l / num_sets cfg) ((l % num_sets cfg) * cfg.assoc)
            cfg.assoc
          ≡ some i)
        (sym same) e)
