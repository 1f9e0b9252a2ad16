-- ===== src/Memory/Mapped.antt =====
-- When an address is mapped for user code, by the entries of the four levels of page tables, and that
-- the walk's check of a page decides it for every address on the page.
use Prim.{¬◌}
use runix_os.Prelude.{
  ℕ, ◌+◌, ◌*◌, ◌/◌, ◌%◌, ◌^◌, ◌≡◌, ◌≢◌, refl, sym, ap, ◌∙◌, arith, Bool, true, false, ◌&&◌, bit_and,
}
use runix_os.Memory.{Space, entry, usable, frame_of, page_ok, page_of}

-- An entry with the bits for present (0) and user (2), and writeable (1) if that is asked for.
pub record Allows (writeable : Bool) (e : ℕ) : Type 0 where
  pub present : bit_and e 0x1 ≢ 0
  pub user : bit_and e 0x4 ≢ 0
  pub writes : writeable ≡ true → bit_and e 0x2 ≢ 0

-- The entries that an address selects, from the top level down, each by nine of its bits in the table
-- that bits 12 to 51 of the entry before name; and all four allow the access.
pub record IsMapped (space : Space) (writeable : Bool) (a : ℕ) : Type 0 where
  pub pml4 : ℕ
  pub pdpt : ℕ
  pub pd : ℕ
  pub pt : ℕ
  pub pml4_is : pml4 ≡ space.word (space.pml4_paddr + space.hhdm + 8 * (a / 2 ^ 39 % 512))
  pub pdpt_is :
      pdpt ≡ space.word (bit_and pml4 0xffffffffff000 + space.hhdm + 8 * (a / 2 ^ 30 % 512))
  pub pd_is : pd ≡ space.word (bit_and pdpt 0xffffffffff000 + space.hhdm + 8 * (a / 2 ^ 21 % 512))
  pub pt_is : pt ≡ space.word (bit_and pd 0xffffffffff000 + space.hhdm + 8 * (a / 2 ^ 12 % 512))
  pub pml4_allows : Allows writeable pml4
  pub pdpt_allows : Allows writeable pdpt
  pub pd_allows : Allows writeable pd
  pub pt_allows : Allows writeable pt

usable-Allows : (writeable : Bool) (e : ℕ) → usable writeable e ≡ true → Allows writeable e
unfolding usable
usable-Allows true e h = record {
  present = ground (arith, h);
  user = ground (arith, h);
  writes = λ _. ground (arith, h);
}
usable-Allows false e h = record {
  present = ground (arith, h);
  user = ground (arith, h);
  writes = λ f. absurd (cc f);
}

Allows-usable : (writeable : Bool) (e : ℕ) → Allows writeable e → usable writeable e ≡ true
unfolding usable
Allows-usable true e h = ground (arith, h.present, h.user, h.writes refl)
Allows-usable false e h = ground (arith, h.present, h.user)

-- The page of an address selects the same entries as the address.
entry-page_of :
    (space : Space) (paddr a : ℕ)
    → (entry space paddr (page_of a) 39 ≡ space.word (paddr + space.hhdm + 8 * (a / 2 ^ 39 % 512)))
      × (entry space paddr (page_of a) 30
          ≡ space.word (paddr + space.hhdm + 8 * (a / 2 ^ 30 % 512)))
      × (entry space paddr (page_of a) 21
          ≡ space.word (paddr + space.hhdm + 8 * (a / 2 ^ 21 % 512)))
      × (entry space paddr (page_of a) 12
          ≡ space.word (paddr + space.hhdm + 8 * (a / 2 ^ 12 % 512)))
unfolding entry
entry-page_of space paddr a =
    let e39 : page_of a / 2 ^ 39 ≡ a / 2 ^ 39 = omega arith in
    let e30 : page_of a / 2 ^ 30 ≡ a / 2 ^ 30 = omega arith in
    let e21 : page_of a / 2 ^ 21 ≡ a / 2 ^ 21 = omega arith in
    let e12 : page_of a / 2 ^ 12 ≡ a / 2 ^ 12 = omega arith in
    let at : ℕ → ℕ = λ n. space.word (paddr + space.hhdm + 8 * (n % 512)) in
    (ap at e39, ap at e30, ap at e21, ap at e12)

module _ (space : Space) (writeable : Bool) (a : ℕ) where
  -- The entries that the check of the page of `a` reads.
  abbrev walked4 : ℕ
  walked4 = entry space space.pml4_paddr (page_of a) 39

  abbrev walked3 : ℕ
  walked3 = entry space (frame_of walked4) (page_of a) 30

  abbrev walked2 : ℕ
  walked2 = entry space (frame_of walked3) (page_of a) 21

  abbrev walked1 : ℕ
  walked1 = entry space (frame_of walked2) (page_of a) 12

  page_ok-usable : page_ok space writeable (page_of a) ≡ (
      usable writeable walked4
      && (usable writeable walked3 && (usable writeable walked2 && usable writeable walked1)))
  unfolding page_ok
  page_ok-usable = ground arith

  pub page_ok-IsMapped : page_ok space writeable (page_of a) ≡ true → IsMapped space writeable a
  page_ok-IsMapped h =
      let all = sym page_ok-usable ∙ h in
      record {
        pml4 = walked4;
        pdpt = walked3;
        pd = walked2;
        pt = walked1;
        pml4_is = (entry-page_of space space.pml4_paddr a).0;
        pdpt_is = (entry-page_of space (frame_of walked4) a).1;
        pd_is = (entry-page_of space (frame_of walked3) a).2;
        pt_is = (entry-page_of space (frame_of walked2) a).3;
        pml4_allows = usable-Allows writeable walked4 (ground (arith, all));
        pdpt_allows = usable-Allows writeable walked3 (ground (arith, all));
        pd_allows = usable-Allows writeable walked2 (ground (arith, all));
        pt_allows = usable-Allows writeable walked1 (ground (arith, all));
      }

  pub IsMapped-page_ok : IsMapped space writeable a → page_ok space writeable (page_of a) ≡ true
  IsMapped-page_ok m =
      let e4 : m.pml4 ≡ walked4 = m.pml4_is ∙ sym (entry-page_of space space.pml4_paddr a).0 in
      let e3 : m.pdpt ≡ walked3 =
        m.pdpt_is
        ∙ sym (entry-page_of space (frame_of m.pml4) a).1
        ∙ ap (λ e. entry space (frame_of e) (page_of a) 30) e4 in
      let e2 : m.pd ≡ walked2 =
        m.pd_is
        ∙ sym (entry-page_of space (frame_of m.pdpt) a).2
        ∙ ap (λ e. entry space (frame_of e) (page_of a) 21) e3 in
      let e1 : m.pt ≡ walked1 =
        m.pt_is
        ∙ sym (entry-page_of space (frame_of m.pd) a).3
        ∙ ap (λ e. entry space (frame_of e) (page_of a) 12) e2 in
      let a4 = ap (usable writeable) (sym e4) ∙ Allows-usable writeable m.pml4 m.pml4_allows in
      let a3 = ap (usable writeable) (sym e3) ∙ Allows-usable writeable m.pdpt m.pdpt_allows in
      let a2 = ap (usable writeable) (sym e2) ∙ Allows-usable writeable m.pd m.pd_allows in
      let a1 = ap (usable writeable) (sym e1) ∙ Allows-usable writeable m.pt m.pt_allows in
      page_ok-usable ∙ simp (a4, a3, a2, a1)

  pub page_ok-not_IsMapped :
      page_ok space writeable (page_of a) ≡ false → ¬ IsMapped space writeable a
  page_ok-not_IsMapped h m = cc (h, IsMapped-page_ok m)
