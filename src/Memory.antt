-- ===== src/Memory.antt =====
-- kernel/memory/mod.rs, `validate_user_range`: the walk of the page tables that a system call makes
-- before it reads or writes a user buffer. What the tables hold is an argument.
pub mod Range
pub mod Mapped
pub mod Frames
mod Tests
use runix_os.Prelude.{
  ℕ, zero, suc, ◌+◌, ◌-◌, ◌*◌, ◌/◌, ◌%◌, ◌^◌, Bool, true, false, not, ◌&&◌, Option, none, some,
  ◌==◌, if◌then◌else◌, ltb, leb, bit_and,
}

-- The current address space: `cr3`, the offset of the direct map, and the memory's words.
pub record Space : Type 0 where
  pub pml4_paddr : ℕ
  pub hhdm : ℕ
  pub word : ℕ → ℕ

abbrev pub user_space_upper_bound : ℕ
user_space_upper_bound = 0x7FFFFFFFFFFF

-- The entry of the table at physical address `paddr` that `vaddr` selects with its nine bits from
-- `shift` on.
unfoldable pub entry : Space → ℕ → ℕ → ℕ → ℕ
entry space paddr vaddr shift = space.word (paddr + space.hhdm + 8 * (vaddr / 2 ^ shift % 512))

-- Present, user-accessible and, where asked for, writeable.
unfoldable pub usable : Bool → ℕ → Bool
usable writeable e =
    not (bit_and e 0x1 == 0)
    && not (bit_and e 0x4 == 0)
    && (if writeable then not (bit_and e 0x2 == 0) else true)

abbrev pub frame_of : ℕ → ℕ
frame_of e = bit_and e 0x000ffffffffff000

-- The body of the loop: the four levels' checks on one page.
unfoldable pub page_ok : Space → Bool → ℕ → Bool
unfolding entry usable
page_ok space writeable vaddr =
    let pml4_entry = entry space space.pml4_paddr vaddr 39 in
    let pdpt_entry = entry space (frame_of pml4_entry) vaddr 30 in
    let pd_entry = entry space (frame_of pdpt_entry) vaddr 21 in
    let pt_entry = entry space (frame_of pd_entry) vaddr 12 in
    usable writeable pml4_entry
    && usable writeable pdpt_entry
    && usable writeable pd_entry
    && usable writeable pt_entry

-- The loop, on fuel; `none` means that the fuel ran out.
unfoldable pub check_pages : ℕ → Space → Bool → ℕ → ℕ → Option Bool
check_pages zero space writeable vaddr end_page = none
check_pages (suc fuel) space writeable vaddr end_page =
    let rest = check_pages fuel space writeable (vaddr + 4096) end_page in
    if page_ok space writeable vaddr
    then (if vaddr == end_page then some true else rest)
    else some false

-- `x & !0xfff`
abbrev pub page_of : ℕ → ℕ
page_of x = x / 4096 * 4096

unfoldable pub validate_user_range : Space → ℕ → ℕ → Bool → Option Bool
unfolding check_pages
validate_user_range space ptr len writeable =
    let end = ptr + len in
    if len == 0
    then some true
    else if leb (2 ^ 64) end
    then some false
    else if ltb (user_space_upper_bound + 1) end
    then some false
    else check_pages (len / 4096 + 2) space writeable (page_of ptr) (page_of (end - 1))
