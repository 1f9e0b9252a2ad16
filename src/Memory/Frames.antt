-- ===== src/Memory/Frames.antt =====
-- kernel/memory/mod.rs, `FrameAllocator`: the largest usable region of the memory map, page by page. The
-- memory map comes from the boot loader, and is an argument.
use runix_os.Prelude.{
  ℕ, zero, suc, ◌+◌, ◌*◌, ◌/◌, ◌%◌, ◌^◌, ◌<◌, ◌≤◌, ◌≡◌, ◌⊎◌, inl, inr, refl, sym, subst, arith,
  Bool, true, Bool-cases, ◌&&◌, Option, none, some, List, [], ◌∷◌, ltb, leb, if◌then◌else◌,
  add_word, sub_word, get_elem?,
}

-- An entry of the memory map; `usable` is its type.
pub record MemmapEntry : Type 0 where
  pub base : ℕ
  pub size : ℕ
  pub usable : Bool

pub record FrameAllocator : Type 0 where
  pub next_free_paddr : ℕ
  pub usable_end : ℕ

unfoldable pub new : FrameAllocator
new = record { next_free_paddr = 0; usable_end = 0 }

-- `x & !0xfff`
abbrev pub page_floor : ℕ → ℕ
page_floor x = x / 4096 * 4096

-- The loop of `init` over the map.
unfoldable pub init : List MemmapEntry → FrameAllocator → FrameAllocator
init [] frames = frames
init (entry ∷ entries) frames =
    let start = entry.base in
    let end = add_word entry.base entry.size in
    let larger = ltb (sub_word frames.usable_end frames.next_free_paddr) (sub_word end start) in
    init entries (
      if entry.usable && larger
      then (record {
        next_free_paddr = page_floor (add_word start 4095);
        usable_end = page_floor end;
      })
      else frames)

unfoldable pub allocate_frame : FrameAllocator → Option ℕ × FrameAllocator
allocate_frame frames =
    if leb (add_word frames.next_free_paddr 4096) frames.usable_end
    then (
      some frames.next_free_paddr,
      record frames { next_free_paddr = add_word frames.next_free_paddr 4096 },
    )
    else (none, frames)

-- The frames of `n` allocations, in order, without those that failed.
unfoldable pub allocations : ℕ → FrameAllocator → List ℕ
allocations zero frames = []
allocations (suc n) frames =
    let (frame, frames') = allocate_frame frames in
    let rest = allocations n frames' in elim frame [ none ↦ rest | some f ↦ f ∷ rest ]

-- The allocator's part of the memory is whole pages, and ends a page before the last address at least.
pub record IsFrames (frames : FrameAllocator) : Type 0 where
  pub aligned : frames.next_free_paddr % 4096 ≡ 0
  pub small : frames.usable_end + 4096 < 2 ^ 64
  pub next_small : frames.next_free_paddr + 4096 < 2 ^ 64

-- Whole pages, each at or above the end of the one before, from `from` to `end`.
pub data ArePages (end : ℕ) : ℕ → List ℕ → Type 0 where
  no_pages : {from : ℕ} → ArePages end from []
  page :
      {from : ℕ} {frame : ℕ} {frames : List ℕ}
      → from ≤ frame
      → frame % 4096 ≡ 0
      → frame + 4096 ≤ end
      → ArePages end (frame + 4096) frames
      → ArePages end from (frame ∷ frames)

allocations_lem :
    (n : ℕ) (frames : FrameAllocator) (end : ℕ)
    → frames.usable_end ≡ end
    → IsFrames frames
    → ArePages end frames.next_free_paddr (allocations n frames)
unfolding allocations allocate_frame
allocations_lem zero frames end q v = no_pages
allocations_lem (suc n) frames end q v =
    let next = frames.next_free_paddr in
    let w : add_word next 4096 ≡ next + 4096 = omega (arith, v.next_small) in
    elim (Bool-cases (leb (next + 4096) frames.usable_end)) [
      | inl e ↦
          let fits : next + 4096 ≤ frames.usable_end = ground (arith, e) in
          let after : FrameAllocator = record frames { next_free_paddr = next + 4096 } in
          let v' : IsFrames after = record {
            aligned = omega (arith, v.aligned);
            small = v.small;
            next_small = omega (arith, v.small, fits);
          } in
          simp (allocations, allocate_frame, w, e)
            (page (omega arith) v.aligned (omega (arith, fits, q))
              (allocations_lem n after end q v'))
      | inr e ↦ simp (allocations, allocate_frame, w, e) (allocations_lem n frames end q v)
    ]

-- However many frames are asked for: those given are whole pages of the allocator's region, and no two of
-- them overlap, because each begins at or after the end of the one before.
pub allocations-ArePages :
    (n : ℕ) (frames : FrameAllocator)
    → IsFrames frames
    → ArePages frames.usable_end frames.next_free_paddr (allocations n frames)
allocations-ArePages n frames v = allocations_lem n frames frames.usable_end refl v

-- The region lies in a usable entry of the map.
pub record IsWithin (entry : MemmapEntry) (frames : FrameAllocator) : Type 0 where
  pub is_usable : entry.usable ≡ true
  pub above : entry.base ≤ frames.next_free_paddr
  pub below : frames.usable_end ≤ entry.base + entry.size

-- The entries are in the range of addresses.
pub data AreInRange : List MemmapEntry → Type 0 where
  no_entries : AreInRange []
  in_range :
      {entry : MemmapEntry} {entries : List MemmapEntry}
      → entry.base + entry.size + 2 * 4096 < 2 ^ 64
      → AreInRange entries
      → AreInRange (entry ∷ entries)

-- Nothing was found, or a region of a usable entry.
abbrev pub IsFound : List MemmapEntry → FrameAllocator → FrameAllocator → Type 0
IsFound entries before frames =
    (frames ≡ before)
    ⊎ ((i : ℕ) × (entry : MemmapEntry) × (get_elem? entries i ≡ some entry)
        × IsWithin entry frames
        × IsFrames frames)

-- The region that `init` makes of an entry.
abbrev region_of : MemmapEntry → FrameAllocator
region_of entry = record {
  next_free_paddr = page_floor (add_word entry.base 4095);
  usable_end = page_floor (add_word entry.base entry.size);
}

region_of-IsWithin :
    (entry : MemmapEntry)
    → entry.usable ≡ true
    → entry.base + entry.size + 2 * 4096 < 2 ^ 64
    → IsWithin entry (region_of entry) × IsFrames (region_of entry)
region_of-IsWithin entry u a =
    let b : add_word entry.base entry.size ≡ entry.base + entry.size = omega (arith, a) in
    let c : add_word entry.base 4095 ≡ entry.base + 4095 = omega (arith, a) in
    (
      record { is_usable = u; above = omega (arith, c); below = omega (arith, b) },
      record {
        aligned = omega arith;
        small = omega (arith, a, b);
        next_small = omega (arith, a, c);
      },
    )

init_lem :
    (entries : List MemmapEntry) (frames : FrameAllocator)
    → AreInRange entries
    → IsFound entries frames (init entries frames)
unfolding init
init_lem [] frames r = inl refl
init_lem (entry ∷ entries) frames (in_range a r) =
    let start = entry.base in
    let end = add_word entry.base entry.size in
    let found : FrameAllocator = record {
      next_free_paddr = page_floor (add_word start 4095);
      usable_end = page_floor end;
    } in
    elim (Bool-cases (
      entry.usable
      && ltb (sub_word frames.usable_end frames.next_free_paddr) (sub_word end start))) [
        | inr e ↦ simp e (elim (init_lem entries frames r) [
          | inl q ↦ inl q
          | inr (i, x, at, w, v) ↦ inr (suc i, x, at, w, v)
        ])
        | inl e ↦ simp e (elim (init_lem entries found r) [
          | inl q ↦
              let u : entry.usable ≡ true = ground (arith, e) in
              let (w, v) = region_of-IsWithin entry u a in
              inr (0, entry, refl, subst (IsWithin entry) (sym q) w, subst IsFrames (sym q) v)
          | inr (i, x, at, w, v) ↦ inr (suc i, x, at, w, v)
        ])
      ]

-- The allocator that `init` sets up hands out pages of usable memory only: it has nothing to hand out, or
-- its region is whole pages and lies in a usable entry of the memory map. The map is in the range of
-- addresses.
pub init-IsFound :
    (entries : List MemmapEntry) → AreInRange entries → IsFound entries new (init entries new)
init-IsFound entries r = init_lem entries new r
