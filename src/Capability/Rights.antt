-- ===== src/Capability/Rights.antt =====
-- Attenuation (`Capability::attenuate`): a derived capability never exceeds its donor.
use runix_os.Prelude.{◌≡◌, Bool, true, false, none, some, ◌↔◌, arith}
use runix_os.Capability.{Capability, RightsMask, attenuate}

-- `a` allows no more than `b`.
abbrev pub Within : Bool → Bool → Type 0
Within a b = a ≡ true → b ≡ true

pub record Attenuates (donor : Capability) (mask : RightsMask) (derived : Capability) : Type 0 where
  pub same : derived.resource ≡ donor.resource
  pub reads : Within derived.read donor.read × Within derived.read mask.read
  pub writes : Within derived.write donor.write × Within derived.write mask.write
  pub grants : Within derived.grant mask.grant
  pub open_slot : derived.sealed ≡ false
  pub no_lineage : derived.origin ≡ none

-- `attenuate` fails exactly when the donor lacks the grant right.
pub attenuate-none :
    (donor : Capability) (mask : RightsMask) → (attenuate donor mask ≡ none) ↔ (donor.grant ≡ false)
unfolding attenuate
attenuate-none donor mask = ground arith

-- A derived capability names the donor's resource, has only rights that both the donor and the
-- request have, and is neither sealed, also where the donor is, nor stamped with a lineage.
pub attenuate-Attenuates :
    (donor : Capability) (mask : RightsMask) {derived : Capability}
    → attenuate donor mask ≡ some derived
    → Attenuates donor mask derived
unfolding attenuate
attenuate-Attenuates donor mask e = ground arith

-- Along a chain of two grants rights only shrink: the last holder has no right that the first
-- donor lacks, and could be served only because the middle holder was given the grant right.
pub attenuate-attenuate :
    (a b c : Capability) (m n : RightsMask)
    → attenuate a m ≡ some b
    → attenuate b n ≡ some c
    → Attenuates a n c × (m.grant ≡ true)
unfolding attenuate
attenuate-attenuate a b c m n e f = ground arith
