-- ===== src/Revocation/Table.antt =====
-- A whole table under `sweep_slots`.
use runix_os.Prelude.{
  ℕ, ◌+◌, ◌≤◌, ◌<◌, ◌≡◌, ◌∙◌, sym, inl, inr, refl, ap, true, false, Option, none, some, [], ◌∷◌,
  arith, length, suc, Bool-cases,
}
use runix_os.Capability.{TaskId, Capability, CapTable}
use runix_os.Revocation.{Sweep, sweep_slot, sweep_slots}
use runix_os.Revocation.Slots.{
  Swept, SweptTable, SweptTable-mono, Swept-mono, Grows, live, Quiet, sweep_slot-Step,
}

-- What a run over some slots or tasks does to the sweep.
pub record Advance (w w' : Sweep) : Type 0 where
  pub grows : Grows w.revoked w'.revoked
  pub later : w.changed ≡ true → w'.changed ≡ true
  pub progress : w.changed ≡ false → w'.changed ≡ true → length w.revoked < length w'.revoked
  pub same : w'.changed ≡ false → w' ≡ w

pub Advance-refl : (w : Sweep) → Advance w w
Advance-refl w = record {
  grows = λ id h. h;
  later = λ h. h;
  progress = λ a b. absurd (ground arith);
  same = λ h. refl;
}

pub Advance-trans :
    (u v w : Sweep) → length v.revoked ≤ length w.revoked → Advance u v → Advance v w → Advance u w
Advance-trans u v w le a b = record {
  grows = λ id h. b.grows id (a.grows id h);
  later = λ h. b.later (a.later h);
  progress = λ c d. elim (Bool-cases v.changed) [
    | inl e ↦ omega (arith, a.progress c e)
    | inr e ↦
        let q = b.progress e d in
        let unchanged : v ≡ u = a.same e in
        let l : length v.revoked ≡ length u.revoked =
          ap (λ (x : Sweep). length x.revoked) unchanged in
        omega arith
  ];
  same = λ h.
      let p : w ≡ v = b.same h in
      let e : v.changed ≡ false = sym (ap (λ (x : Sweep). x.changed) p) ∙ h in p ∙ a.same e;
}

pub record Swiped (task : TaskId) (s : ℕ) (slots : CapTable) (w : Sweep) : Type 0 where
  pub advance : Advance w (sweep_slots task s slots w).1
  pub longer : length w.revoked ≤ length (sweep_slots task s slots w).1.revoked
  pub counted :
      live (sweep_slots task s slots w).0 + length (sweep_slots task s slots w).1.revoked
      ≡ live slots + length w.revoked
  pub quiet :
      (sweep_slots task s slots w).1.changed ≡ false
      → ((sweep_slots task s slots w).0 ≡ slots) × Quiet w.revoked slots
  pub swept :
      (os : CapTable)
      → SweptTable w.revoked os slots
      → SweptTable (sweep_slots task s slots w).1.revoked os (sweep_slots task s slots w).0
  pub size : length (sweep_slots task s slots w).0 ≡ length slots

-- The head of a table that is swept against an original one.
Swept-step :
    (task : TaskId) (s : ℕ) (w : Sweep) (o n : Option Capability)
    → Swept w.revoked o n
    → Swept (sweep_slot task s n w).1.revoked o (sweep_slot task s n w).0
unfolding sweep_slot
Swept-step task s w o n (inl e) = rw (← e) (sweep_slot-Step task s n w).swept
Swept-step task s w o n (inr (c, p, a, b, d, x, y)) = rw b (inr (c, p, a, refl, d, x, y))

live-cons :
    (slot : Option Capability) (slots : CapTable)
    → live (slot ∷ slots) ≡ live (slot ∷ []) + live slots
live-cons none slots = omega arith
live-cons (some c) slots = omega arith

SweptTable-cons :
    (task : TaskId) (s : ℕ) (slot : Option Capability) (slots : CapTable) (w : Sweep)
    → Swiped task (s + 1) slots (sweep_slot task s slot w).1
    → (os : CapTable) → SweptTable w.revoked os (slot ∷ slots)
    → let w1 = (sweep_slot task s slot w).1 in
      SweptTable
        (sweep_slots task (s + 1) slots w1).1.revoked
        os
        ((sweep_slot task s slot w).0 ∷ (sweep_slots task (s + 1) slots w1).0)
SweptTable-cons task s slot slots w more [] h = absurd h
SweptTable-cons task s slot slots w more (o ∷ os) h =
    let w1 = (sweep_slot task s slot w).1 in
    (
      Swept-mono w1.revoked _ o _ more.advance.grows (Swept-step task s w o slot h.0),
      more.swept os
          (SweptTable-mono w.revoked w1.revoked os slots (sweep_slot-Step task s slot w).grows h.1),
    )

pub sweep_slots-Swiped :
    (task : TaskId) (s : ℕ) (slots : CapTable) (w : Sweep) → Swiped task s slots w
unfolding sweep_slots
sweep_slots-Swiped task s [] w = record {
  advance = Advance-refl w;
  longer = omega arith;
  counted = refl;
  quiet = λ h. (refl, tt);
  swept = λ os h. h;
  size = refl;
}
sweep_slots-Swiped task s (slot ∷ slots) w =
    let one = sweep_slot-Step task s slot w in
    let w1 = (sweep_slot task s slot w).1 in
    let slot' = (sweep_slot task s slot w).0 in
    let more = sweep_slots-Swiped task (s + 1) slots w1 in
    let slots' = (sweep_slots task (s + 1) slots w1).0 in
    let w2 = (sweep_slots task (s + 1) slots w1).1 in
    let first : Advance w w1 = record {
      grows = one.grows;
      later = one.later;
      progress = one.progress;
      same = λ h. (one.quiet h).1;
    } in
    record {
      advance = Advance-trans w w1 w2 more.longer first more.advance;
      longer = omega (arith, one.longer, more.longer);
      counted =
          omega (arith, one.counted, more.counted, live-cons slot slots, live-cons slot' slots');
      quiet = λ h.
          let (kept, calm) = more.quiet h in
          let p : w2 ≡ w1 = more.advance.same h in
          let e : w1.changed ≡ false = sym (ap (λ (x : Sweep). x.changed) p) ∙ h in
          let (kept1, same1, calm1) = one.quiet e in (rw (kept1, kept), (calm1, rw same1 at calm));
      swept = λ os h. SweptTable-cons task s slot slots w more os h;
      size = ap suc more.size;
    }
