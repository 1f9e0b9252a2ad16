-- ===== src/Message/Tag.antt =====
-- `IpcTag::from_u16` against the discriminants.
use runix_os.Prelude.{ℕ, ◌<◌, ◌≤◌, ◌≡◌, ◌↔◌, refl, none, some, arith}
use runix_os.Message.{IpcTag, as_u16, from_u16, raw}

-- Every tag is read back from its own discriminant, which is below 15.
pub from_u16-as_u16 : (t : IpcTag) → (from_u16 (as_u16 t) ≡ some t) × (as_u16 t < 15)
unfolding from_u16 as_u16
from_u16-as_u16 raw = (refl, omega arith)
from_u16-as_u16 _ = (refl, omega arith)

-- `from_u16` accepts only discriminants: what it reads is the tag with that number, and it
-- rejects exactly the numbers from 15 on.
pub as_u16-from_u16 :
    (v : ℕ) → ((t : IpcTag) → from_u16 v ≡ some t → as_u16 t ≡ v) × ((from_u16 v ≡ none) ↔ (15 ≤ v))
unfolding from_u16 as_u16
as_u16-from_u16 v = (λ t e. ground arith, ground arith)
