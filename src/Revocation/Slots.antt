-- ===== src/Revocation/Slots.antt =====
-- One table under `sweep_slots`.
use runix_os.Prelude.{
  ℕ, ◌+◌, ◌≤◌, ◌<◌, ◌≡◌, ◌⊎◌, inl, inr, refl, true, false, Option, none, some, List, [], ◌∷◌, arith,
  length, suc, Bool-cases, Option-cases,
}
use runix_os.Capability.{TaskId, Capability, CapTable}
use runix_os.Revocation.{Sweep, is_revoked, is_hit, sweep_slot}

-- What may have become of a slot: kept, or emptied because its capability was granted from a
-- revoked one, and then its own id is revoked too.
abbrev pub Swept : List ℕ → Option Capability → Option Capability → Type 0
Swept revoked o n =
    (n ≡ o)
    ⊎ ((cap : Capability) × (parent : ℕ) × (o ≡ some cap)
        × (n ≡ none)
        × (cap.origin ≡ some parent)
        × (is_revoked revoked parent ≡ true)
        × (is_revoked revoked cap.id ≡ true))

abbrev pub SweptTable : List ℕ → CapTable → CapTable → Type 0
SweptTable revoked [] [] = Unit
SweptTable revoked [] (n ∷ ns) = ⊥
SweptTable revoked (o ∷ os) [] = ⊥
SweptTable revoked (o ∷ os) (n ∷ ns) = Swept revoked o n × SweptTable revoked os ns

pub SweptTable-refl : (revoked : List ℕ) (os : CapTable) → SweptTable revoked os os
SweptTable-refl revoked [] = tt
SweptTable-refl revoked (o ∷ os) = (inl refl, SweptTable-refl revoked os)

-- More ids are revoked in `ys` than in `xs`.
abbrev pub Grows : List ℕ → List ℕ → Type 0
Grows xs ys = (id : ℕ) → is_revoked xs id ≡ true → is_revoked ys id ≡ true

pub Swept-mono :
    (xs ys : List ℕ) (o n : Option Capability) → Grows xs ys → Swept xs o n → Swept ys o n
Swept-mono xs ys o n g (inl e) = inl e
Swept-mono xs ys o n g (inr (c, p, a, b, d, x, y)) = inr (c, p, a, b, d, g p x, g c.id y)

pub SweptTable-mono :
    (xs ys : List ℕ) (os ns : CapTable) → Grows xs ys → SweptTable xs os ns → SweptTable ys os ns
SweptTable-mono xs ys [] [] g h = tt
SweptTable-mono xs ys [] (n ∷ ns) g h = absurd h
SweptTable-mono xs ys (o ∷ os) [] g h = absurd h
SweptTable-mono xs ys (o ∷ os) (n ∷ ns) g h =
    (Swept-mono xs ys o n g h.0, SweptTable-mono xs ys os ns g h.1)

-- The capabilities in a table.
abbrev pub live : CapTable → ℕ
live [] = 0
live (none ∷ slots) = live slots
live (some c ∷ slots) = suc (live slots)

-- No slot is to be revoked.
abbrev pub Quiet : List ℕ → CapTable → Type 0
Quiet revoked [] = Unit
Quiet revoked (slot ∷ slots) = (is_hit revoked slot ≡ false) × Quiet revoked slots

-- What one step of the inner loop does to its slot and to the sweep.
pub record Step (task : TaskId) (s : ℕ) (slot : Option Capability) (w : Sweep) : Type 0 where
  pub grows : Grows w.revoked (sweep_slot task s slot w).1.revoked
  pub longer : length w.revoked ≤ length (sweep_slot task s slot w).1.revoked
  pub counted :
      live ((sweep_slot task s slot w).0 ∷ []) + length (sweep_slot task s slot w).1.revoked
      ≡ live (slot ∷ []) + length w.revoked
  pub swept : Swept (sweep_slot task s slot w).1.revoked slot (sweep_slot task s slot w).0
  pub later : w.changed ≡ true → (sweep_slot task s slot w).1.changed ≡ true
  pub quiet :
      (sweep_slot task s slot w).1.changed ≡ false
      → ((sweep_slot task s slot w).0 ≡ slot)
        × ((sweep_slot task s slot w).1 ≡ w)
        × (is_hit w.revoked slot ≡ false)
  pub progress :
      (w.changed ≡ false)
      → (sweep_slot task s slot w).1.changed ≡ true
      → length w.revoked < length (sweep_slot task s slot w).1.revoked

pub is_hit_origin :
    (revoked : List ℕ) (cap : Capability)
    → is_hit revoked (some cap) ≡ true
    → (parent : ℕ) × (cap.origin ≡ some parent) × (is_revoked revoked parent ≡ true)
unfolding is_hit
is_hit_origin revoked cap h = elim (Option-cases cap.origin) [
  | inl e ↦ absurd (ground arith)
  | inr (p, e) ↦ (p, e, ground arith)
]

pub sweep_slot-Step :
    (task : TaskId) (s : ℕ) (slot : Option Capability) (w : Sweep) → Step task s slot w
unfolding sweep_slot
sweep_slot-Step task s none w = record {
  grows = λ id h. h;
  longer = omega arith;
  counted = refl;
  swept = inl refl;
  later = λ h. h;
  quiet = λ h. (refl, refl, refl);
  progress = λ a b. absurd (ground arith);
}
sweep_slot-Step task s (some cap) w = elim (Bool-cases (is_hit w.revoked (some cap))) [
  | inr miss ↦ record {
    grows = λ id h. ground arith;
    longer = ground arith;
    counted = ground arith;
    swept = inl (ground arith);
    later = λ h. ground arith;
    quiet = λ h. (ground arith, ground arith, miss);
    progress = λ a b. absurd (ground arith);
  }
  | inl hit ↦
      let (p, e, r) = is_hit_origin w.revoked cap hit in
      record {
        grows = λ id h. unfold is_revoked in (ground arith);
        longer = ground arith;
        counted = ground arith;
        swept = inr (
          cap,
          p,
          refl,
          ground arith,
          e,
          unfold is_revoked in (ground arith),
          unfold is_revoked in (ground arith),
        );
        later = λ h. ground arith;
        quiet = λ h. absurd (ground arith);
        progress = λ a b. ground arith;
      }
]
