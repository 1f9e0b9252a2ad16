-- ===== src/Arch/Cache.antt =====
-- kernel/arch_sim/mod.rs, `simulate_cache`: a set-associative cache with least-recently-used
-- replacement, over a trace of addresses. The counters are 64-bit and go up once for an address.
pub mod Accounts
pub mod Search
pub mod Repeat
use runix_os.Prelude.{
  ℕ, zero, suc, ◌+◌, ◌*◌, ◌/◌, ◌%◌, min, Bool, true, false, not, ◌&&◌, ◌||◌, Option, none, some,
  List, [], ◌∷◌, ◌==◌, if◌then◌else◌, ltb, get_or, set, replicate, word_max,
}

pub record CacheConfig : Type 0 where
  pub assoc : ℕ
  pub num_lines : ℕ
  pub line_bytes : ℕ

pub record CacheStats : Type 0 where
  pub accesses : ℕ
  pub hits : ℕ
  pub misses : ℕ
  pub evictions : ℕ

abbrev pub no_stats : CacheStats
no_stats = record { accesses = 0; hits = 0; misses = 0; evictions = 0 }

pub record SimCacheLine : Type 0 where
  pub valid : Bool
  pub tag : ℕ
  pub lru : ℕ

abbrev pub empty_line : SimCacheLine
empty_line = record { valid = false; tag = 0; lru = 0 }

-- The variables that the loop over the addresses changes.
pub record Sim : Type 0 where
  pub stats : CacheStats
  pub cache : List SimCacheLine
  pub lru_counter : ℕ

abbrev pub line : List SimCacheLine → ℕ → SimCacheLine
line cache idx = get_or cache idx empty_line

-- The first loop over a set: `n` indices are left from `idx` on.
unfoldable pub find_hit : ℕ → List SimCacheLine → ℕ → ℕ → ℕ → Option ℕ
find_hit num_lines cache tag idx zero = none
find_hit num_lines cache tag idx (suc n) =
    let rest = find_hit num_lines cache tag (idx + 1) n in
    if ltb idx num_lines && ((line cache idx).valid && (line cache idx).tag == tag)
    then some idx
    else rest

-- The second loop: the first empty line, and the least recently used one before it.
unfoldable pub find_victim : ℕ → List SimCacheLine → ℕ → ℕ → ℕ → ℕ → Option ℕ × ℕ
find_victim num_lines cache idx zero lru_idx min_lru = (none, lru_idx)
find_victim num_lines cache idx (suc n) lru_idx min_lru =
    let older = ltb idx num_lines && ((line cache idx).valid && ltb (line cache idx).lru min_lru) in
    let rest =
      find_victim num_lines cache (idx + 1) n (if older then idx else lru_idx)
        (if older then (line cache idx).lru else min_lru) in
    if ltb idx num_lines && not (line cache idx).valid then (some idx, lru_idx) else rest

abbrev pub line_addr : CacheConfig → ℕ → ℕ
line_addr cfg addr = addr / cfg.line_bytes

abbrev pub num_sets : CacheConfig → ℕ
num_sets cfg = cfg.num_lines / cfg.assoc

-- `num_lines` of the loop: the array has 1024 lines.
abbrev pub simulated : CacheConfig → ℕ
simulated cfg = min cfg.num_lines 1024

abbrev pub set_start : CacheConfig → ℕ → ℕ
set_start cfg addr = (line_addr cfg addr % num_sets cfg) * cfg.assoc

abbrev pub tag_of : CacheConfig → ℕ → ℕ
tag_of cfg addr = line_addr cfg addr / num_sets cfg

unfoldable pub hit : Sim → ℕ → ℕ → Sim
hit sim counter idx = record {
  stats = record sim.stats { accesses = sim.stats.accesses + 1; hits = sim.stats.hits + 1 };
  cache = set sim.cache idx (record (line sim.cache idx) { lru = counter });
  lru_counter = counter;
}

unfoldable pub miss : CacheConfig → Sim → ℕ → ℕ → Sim
miss cfg sim counter addr =
    let tag = tag_of cfg addr in
    let stats = record sim.stats {
      accesses = sim.stats.accesses + 1;
      misses = sim.stats.misses + 1;
    } in
    let from = set_start cfg addr in
    let (empty_idx, lru_idx) = find_victim (simulated cfg) sim.cache from cfg.assoc from word_max in
    elim empty_idx [
      | some idx ↦ record {
        stats = stats;
        cache =
            if ltb idx (simulated cfg)
            then set sim.cache idx (record { valid = true; tag = tag; lru = counter })
            else sim.cache;
        lru_counter = counter;
      }
      | none ↦
          if ltb lru_idx (simulated cfg)
          then (record {
            stats = record stats { evictions = stats.evictions + 1 };
            cache =
                set sim.cache lru_idx
                  (record (line sim.cache lru_idx) { tag = tag; lru = counter });
            lru_counter = counter;
          })
          else (record { stats = stats; cache = sim.cache; lru_counter = counter })
    ]

-- A round of the loop.
unfoldable pub access : CacheConfig → Sim → ℕ → Sim
access cfg sim addr =
    let counter = sim.lru_counter + 1 in
    elim (find_hit (simulated cfg) sim.cache (tag_of cfg addr) (set_start cfg addr) cfg.assoc) [
      | some idx ↦ hit sim counter idx
      | none ↦ miss cfg sim counter addr
    ]

unfoldable pub accesses : CacheConfig → List ℕ → Sim → Sim
accesses cfg [] sim = sim
accesses cfg (addr ∷ addrs) sim = accesses cfg addrs (access cfg sim addr)

abbrev pub start : Sim
start = record { stats = no_stats; cache = replicate 1024 empty_line; lru_counter = 0 }

-- `none` is a division by a `line_bytes` of zero, which stops the kernel.
unfoldable pub simulate_cache : CacheConfig → List ℕ → Option CacheStats
simulate_cache cfg [] = some no_stats
simulate_cache cfg (addr ∷ addrs) =
    if cfg.assoc == 0 || (cfg.num_lines == 0 || ltb cfg.num_lines cfg.assoc)
    then some no_stats
    else if num_sets cfg == 0
    then some no_stats
    else if cfg.line_bytes == 0
    then none
    else some (accesses cfg (addr ∷ addrs) start).stats
