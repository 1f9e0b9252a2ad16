-- ===== src/Revocation/Sound.antt =====
-- Every id that a sweep adds to the revoked set descends from the root.
use runix_os.Prelude.{
  ℕ, ◌+◌, ◌≡◌, refl, subst, true, Option, none, some, List, [], ◌∷◌, arith, Bool-cases, inl, inr,
  ◌==◌,
}
use runix_os.Capability.{TaskId, Capability, CapTable}
use runix_os.Task.{Task}
use runix_os.Revocation.{Sweep, is_revoked, is_hit, sweep_slot, sweep_slots, sweep_tasks}
use runix_os.Revocation.Derived.{Derived, granted}
use runix_os.Revocation.Slots.{is_hit_origin}

module _ (owned : Capability → Type 0) (root : ℕ) where
  abbrev pub SoundIds : List ℕ → Type 0
  SoundIds revoked = (id : ℕ) → is_revoked revoked id ≡ true → Derived owned root id

  abbrev pub OwnedSlot : Option Capability → Type 0
  OwnedSlot none = Unit
  OwnedSlot (some cap) = owned cap

  abbrev pub OwnedTable : CapTable → Type 0
  OwnedTable [] = Unit
  OwnedTable (slot ∷ slots) = OwnedSlot slot × OwnedTable slots

  abbrev pub OwnedTasks : List (Option Task) → Type 0
  OwnedTasks [] = Unit
  OwnedTasks (none ∷ tasks) = OwnedTasks tasks
  OwnedTasks (some t ∷ tasks) = OwnedTable t.cap_table × OwnedTasks tasks

  SoundIds-cons :
      (revoked : List ℕ) (id : ℕ)
      → SoundIds revoked
      → Derived owned root id
      → SoundIds (id ∷ revoked)
  unfolding is_revoked
  SoundIds-cons revoked id s d j h = elim (Bool-cases (id == j)) [
    | inl e ↦ let p : id ≡ j = ground arith in subst (Derived owned root) p d
    | inr e ↦ s j (ground arith)
  ]

  sweep_slot_sound :
      (task : TaskId) (s : ℕ) (slot : Option Capability) (w : Sweep)
      → SoundIds w.revoked
      → OwnedSlot slot
      → SoundIds (sweep_slot task s slot w).1.revoked × OwnedSlot (sweep_slot task s slot w).0
  unfolding sweep_slot
  sweep_slot_sound task s none w so ow = (so, ow)
  sweep_slot_sound task s (some cap) w so ow = elim (Bool-cases (is_hit w.revoked (some cap))) [
    | inr miss ↦ rw (miss, sweep_slot) (so, ow)
    | inl hit ↦
        let (p, e, r) = is_hit_origin w.revoked cap hit in
        rw (hit, sweep_slot)
          (SoundIds-cons w.revoked cap.id so (granted cap p cap.id ow e refl (so p r)), tt)
  ]

  sweep_slots_sound :
      (task : TaskId) (s : ℕ) (slots : CapTable) (w : Sweep)
      → SoundIds w.revoked
      → OwnedTable slots
      → SoundIds (sweep_slots task s slots w).1.revoked × OwnedTable (sweep_slots task s slots w).0
  unfolding sweep_slots
  sweep_slots_sound task s [] w so ow = (so, tt)
  sweep_slots_sound task s (slot ∷ slots) w so ow =
      let (so1, ow1) = sweep_slot_sound task s slot w so ow.0 in
      let (so2, ow2) = sweep_slots_sound task (s + 1) slots (sweep_slot task s slot w).1 so1 ow.1 in
      (so2, (ow1, ow2))

  pub sweep_tasks_sound :
      (tasks : List (Option Task)) (w : Sweep)
      → SoundIds w.revoked
      → OwnedTasks tasks
      → SoundIds (sweep_tasks tasks w).1.revoked × OwnedTasks (sweep_tasks tasks w).0
  unfolding sweep_tasks
  sweep_tasks_sound [] w so ow = (so, tt)
  sweep_tasks_sound (none ∷ tasks) w so ow = sweep_tasks_sound tasks w so ow
  sweep_tasks_sound (some t ∷ tasks) w so ow =
      let (so1, ow1) = sweep_slots_sound t.id 0 t.cap_table w so ow.0 in
      let (so2, ow2) = sweep_tasks_sound tasks (sweep_slots t.id 0 t.cap_table w).1 so1 ow.1 in
      (so2, (ow1, ow2))
