-- ===== src/Memory/Tests.antt =====
-- An address space in which every entry is present, user-accessible and writeable.
use Prim.{¬◌}
use runix_os.Prelude.{◌^◌, ℕ, ◌≡◌, ◌≢◌, ◌⊎◌, ◌+◌, ◌≤◌, ◌<◌, refl, arith, true, false, some}
use runix_os.Memory.{Space, validate_user_range}
use runix_os.Memory.Mapped.{IsMapped}
use runix_os.Memory.Range.{validate_user_range_lem}
use runix_os.Memory.Frames.{FrameAllocator, allocations, ArePages, allocations-ArePages}

abbrev open_space : Space
open_space = record { pml4_paddr = 0x1000; hhdm = 0; word = λ a. 0x1007 }

validate_user_range_lem_example :
    ((validate_user_range open_space 0x400ff0 32 true ≡ some true)
      × ((◌≡◌ {A = ℕ} 32 0)
          ⊎ ((0x400ff0 + 32 ≤ 2 ^ 47)
              × ((a : ℕ) → 0x400ff0 ≤ a → a < 0x400ff0 + 32 → IsMapped open_space true a))))
    ⊎ ((validate_user_range open_space 0x400ff0 32 true ≡ some false)
        × (◌≢◌ {A = ℕ} 32 0)
        × ((2 ^ 47 < 0x400ff0 + 32)
            ⊎ ((a : ℕ) × (0x400ff0 ≤ a) × (a < 0x400ff0 + 32) × (¬ IsMapped open_space true a))))
validate_user_range_lem_example = validate_user_range_lem open_space 0x400ff0 32 true

abbrev two_pages : FrameAllocator
two_pages = record { next_free_paddr = 0x1000; usable_end = 0x3000 }

allocations-ArePages_example : ArePages 0x3000 0x1000 (allocations 3 two_pages)
allocations-ArePages_example =
    allocations-ArePages 3 two_pages
      (record { aligned = refl; small = omega arith; next_small = omega arith })
