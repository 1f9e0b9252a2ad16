-- ===== src/Arch/Tests.antt =====
-- Runs of the simulators: two instructions of which the second waits for the first, and a small cache.
use runix_os.Prelude.{◌+◌, ◌≡◌, refl, arith, List, [], ◌∷◌}
use runix_os.Arch.Pipeline.{SimInstr, load, alu, start as start_pipe, simulate_pipeline}
use runix_os.Arch.Pipeline.Retire.{retirements}
use runix_os.Arch.Pipeline.Cycles.{HasEnded, simulate_pipeline-HasEnded}
use runix_os.Arch.Cache.{CacheConfig, start, access}
use runix_os.Arch.Cache.Accounts.{IsConfig}
use runix_os.Arch.Cache.Repeat.{access-access}

abbrev program : List SimInstr
program =
    record { kind = load; rd = 1; rs1 = 2; rs2 = 3 }
    ∷ record { kind = alu; rd = 4; rs1 = 1; rs2 = 2 }
    ∷ []

simulate_pipeline-HasEnded_example :
    HasEnded program (simulate_pipeline program) × (retirements 10 program start_pipe ≡ program)
simulate_pipeline-HasEnded_example = simulate_pipeline-HasEnded program (omega arith)

abbrev small_cache : CacheConfig
small_cache = record { assoc = 2; num_lines = 8; line_bytes = 64 }

small_cache-IsConfig : IsConfig small_cache
small_cache-IsConfig = record {
  assoc_some = omega arith;
  lines_enough = omega arith;
  bytes_some = omega arith;
}

access-access_example :
    let sim' = access small_cache start 128 in
    let sim'' = access small_cache sim' 160 in
    (sim''.stats.hits ≡ sim'.stats.hits + 1)
    × (sim''.stats.misses ≡ sim'.stats.misses)
    × (sim''.stats.evictions ≡ sim'.stats.evictions)
access-access_example =
    access-access small_cache start 128 160 small_cache-IsConfig (omega arith) refl refl
