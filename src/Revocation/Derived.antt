-- ===== src/Revocation/Derived.antt =====
-- The specification: which capabilities descend from a revoked one, and how a table may change.
use runix_os.Prelude.{ℕ, ◌≡◌, Option, some, List, slot_at}
use runix_os.Capability.{Capability}
use runix_os.Task.{Task}

-- The capability stands in some slot of some task.
pub record Held (tasks : List (Option Task)) (cap : Capability) : Type 0 where
  pub task_at : ℕ
  pub slot_is : ℕ
  pub task : Task
  pub found : slot_at tasks task_at ≡ some task
  pub held : slot_at task.cap_table slot_is ≡ some cap

-- The ids of the root and of all that was granted from it, from that, and so on.
pub data Derived (owned : Capability → Type 0) (root : ℕ) : ℕ → Type 0 where
  itself : (id : ℕ) → id ≡ root → Derived owned root id
  granted :
      (cap : Capability) (parent id : ℕ)
      → owned cap
      → cap.origin ≡ some parent
      → cap.id ≡ id
      → Derived owned root parent
      → Derived owned root id

-- The capability itself was granted, directly or not, from the root.
pub record Descends (owned : Capability → Type 0) (root : ℕ) (cap : Capability) : Type 0 where
  pub parent : ℕ
  pub origin_is : cap.origin ≡ some parent
  pub derived : Derived owned root parent
