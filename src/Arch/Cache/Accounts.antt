-- ===== src/Arch/Cache/Accounts.antt =====
-- The counters of the cache simulation.
use runix_os.Prelude.{
  ℕ, ◌+◌, ◌<◌, ◌≤◌, ◌≡◌, inl, inr, refl, arith, false, Bool-cases, some, Option-cases, List, [],
  ◌∷◌, length, ◌==◌, ◌||◌, ltb, subst, word_max,
}
use native.Mathlib.Nat.{div-eq-sub-div}
use runix_os.Arch.Cache.{
  CacheConfig, CacheStats, Sim, no_stats, start, find_hit, find_victim, hit, miss, access, accesses,
  simulate_cache, simulated, set_start, tag_of, num_sets,
}

-- Each of `n` accesses was a hit or a miss, and only misses evict.
pub record AreCounted (stats : CacheStats) (n : ℕ) : Type 0 where
  pub total : stats.accesses ≡ n
  pub split : stats.hits + stats.misses ≡ stats.accesses
  pub evicted : stats.evictions ≤ stats.misses

hit-AreCounted :
    (sim : Sim) (counter idx n : ℕ)
    → AreCounted sim.stats n
    → AreCounted (hit sim counter idx).stats (n + 1)
unfolding hit
hit-AreCounted sim counter idx n c = record {
  total = omega (arith, c.total);
  split = omega (arith, c.split);
  evicted = c.evicted;
}

miss-AreCounted :
    (cfg : CacheConfig) (sim : Sim) (counter addr n : ℕ)
    → AreCounted sim.stats n
    → AreCounted (miss cfg sim counter addr).stats (n + 1)
unfolding miss
miss-AreCounted cfg sim counter addr n c =
    let v =
      find_victim (simulated cfg) sim.cache (set_start cfg addr) cfg.assoc (set_start cfg addr)
        word_max in
    elim (Option-cases v.0) [
      | inr (i, e) ↦
          simp (miss, e)
            (record {
              total = omega (arith, c.total);
              split = omega (arith, c.split);
              evicted = omega (arith, c.evicted);
            })
      | inl e ↦ elim (Bool-cases (ltb v.1 (simulated cfg))) [
        | inl f ↦
            simp (miss, e, f)
              (record {
                total = omega (arith, c.total);
                split = omega (arith, c.split);
                evicted = omega (arith, c.evicted);
              })
        | inr f ↦
            simp (miss, e, f)
              (record {
                total = omega (arith, c.total);
                split = omega (arith, c.split);
                evicted = omega (arith, c.evicted);
              })
      ]
    ]

access-AreCounted :
    (cfg : CacheConfig) (sim : Sim) (addr n : ℕ)
    → AreCounted sim.stats n
    → AreCounted (access cfg sim addr).stats (n + 1)
unfolding access
access-AreCounted cfg sim addr n c =
    elim (Option-cases
      (find_hit (simulated cfg) sim.cache (tag_of cfg addr) (set_start cfg addr) cfg.assoc)) [
        | inl e ↦ simp (access, e) (miss-AreCounted cfg sim (sim.lru_counter + 1) addr n c)
        | inr (i, e) ↦ simp (access, e) (hit-AreCounted sim (sim.lru_counter + 1) i n c)
      ]

accesses-AreCounted :
    (cfg : CacheConfig) (addrs : List ℕ) (sim : Sim) (n : ℕ)
    → AreCounted sim.stats n
    → AreCounted (accesses cfg addrs sim).stats (n + length addrs)
unfolding accesses
accesses-AreCounted cfg [] sim n c = subst (AreCounted sim.stats) (omega arith) c
accesses-AreCounted cfg (addr ∷ addrs) sim n c =
    subst (AreCounted (accesses cfg addrs (access cfg sim addr)).stats) (omega arith) (
      accesses-AreCounted cfg addrs (access cfg sim addr) (n + 1)
        (access-AreCounted cfg sim addr n c))

-- A configuration that the simulation takes: the sets have lines, there are enough lines for one, and a
-- line has bytes.
pub record IsConfig (cfg : CacheConfig) : Type 0 where
  pub assoc_some : 0 < cfg.assoc
  pub lines_enough : cfg.assoc ≤ cfg.num_lines
  pub bytes_some : 0 < cfg.line_bytes

pub num_sets-positive : (cfg : CacheConfig) → IsConfig cfg → (num_sets cfg == 0) ≡ false
num_sets-positive cfg w =
    let p : 0 < num_sets cfg = omega (arith, div-eq-sub-div w.assoc_some w.lines_enough) in
    ground (arith, p)

-- The simulation of a cache with a proper configuration does not stop the kernel, every address of the
-- trace is counted as an access, every access as a hit or as a miss, and never both; and there are
-- no more evictions than misses.
pub simulate_cache-AreCounted :
    (cfg : CacheConfig) (addrs : List ℕ)
    → IsConfig cfg
    → (stats : CacheStats) × (simulate_cache cfg addrs ≡ some stats)
      × AreCounted stats (length addrs)
unfolding simulate_cache
simulate_cache-AreCounted cfg [] w =
    (no_stats, refl, record { total = refl; split = refl; evicted = omega arith })
simulate_cache-AreCounted cfg (addr ∷ addrs) w =
    let a : (cfg.assoc == 0 || (cfg.num_lines == 0 || ltb cfg.num_lines cfg.assoc)) ≡ false =
      ground (arith, w.assoc_some, w.lines_enough) in
    let b : (num_sets cfg == 0) ≡ false = num_sets-positive cfg w in
    let c : (cfg.line_bytes == 0) ≡ false = ground (arith, w.bytes_some) in
    (
      (accesses cfg (addr ∷ addrs) start).stats,
      simp (a, b, c),
      subst (AreCounted (accesses cfg (addr ∷ addrs) start).stats) (omega arith) (
          accesses-AreCounted cfg (addr ∷ addrs) start 0
            (record { total = refl; split = refl; evicted = omega arith })),
    )
