-- ===== src/Revocation/Fixpoint.antt =====
-- The outer loop ends, with nothing left to revoke.
use runix_os.Prelude.{
  ℕ, zero, suc, ◌+◌, ◌<◌, ◌≡◌, ◌∙◌, refl, true, false, Option, some, List, arith, length,
  Bool-cases, inl, inr,
}
use runix_os.Capability.{Capability}
use runix_os.Audit.{AuditLog}
use runix_os.Task.{Task}
use runix_os.Revocation.{Sweep, is_revoked, sweep_tasks, passes}
use runix_os.Revocation.Pass.{SweptTasks, live_tasks, QuietTasks, sweep_tasks-Passed}
use runix_os.Revocation.Sound.{SoundIds, OwnedTasks, sweep_tasks_sound}

-- The result of the loop, against the tasks it began with.
pub record Propagated (owned : Capability → Type 0) (root : ℕ) (tasks0 : List (Option Task))
    (tasks : List (Option Task)) (revoked : List ℕ) : Type 0 where
  pub swept : SweptTasks revoked tasks0 tasks
  pub sound : SoundIds owned root revoked
  pub root_in : is_revoked revoked root ≡ true
  pub counted : live_tasks tasks + length revoked ≡ live_tasks tasks0 + 1

module _ (owned : Capability → Type 0) (root : ℕ) (tasks0 : List (Option Task)) where
  -- One pass keeps what is known of the result.
  pass_keeps :
      (tasks : List (Option Task)) (w : Sweep)
      → Propagated owned root tasks0 tasks w.revoked
      → OwnedTasks owned root tasks
      → Propagated owned root tasks0 (sweep_tasks tasks w).0 (sweep_tasks tasks w).1.revoked
        × OwnedTasks owned root (sweep_tasks tasks w).0
  pass_keeps tasks w p ow =
      let pass = sweep_tasks-Passed tasks w in
      let (so, ow') = sweep_tasks_sound owned root tasks w p.sound ow in
      (
        record {
          swept = pass.swept tasks0 p.swept;
          sound = so;
          root_in = pass.advance.grows root p.root_in;
          counted = pass.counted ∙ p.counted;
        },
        ow',
      )

  -- With more fuel than there are capabilities the loop ends, by a pass that changed nothing.
  pub passes_end :
      (fuel : ℕ) (tasks : List (Option Task)) (revoked : List ℕ) (audit : AuditLog)
      → live_tasks tasks < fuel
      → Propagated owned root tasks0 tasks revoked
      → OwnedTasks owned root tasks
      → (tasks' : List (Option Task)) × (revoked' : List ℕ) × (audit' : AuditLog) × (passes fuel
            tasks revoked audit
          ≡ some (tasks', revoked', audit'))
        × (Propagated owned root tasks0 tasks' revoked')
        × (QuietTasks revoked' tasks')
  unfolding passes
  passes_end zero tasks revoked audit lt p ow = elim lt [ ]
  passes_end (suc fuel) tasks revoked audit lt p ow =
      let w : Sweep = record { revoked = revoked; audit = audit; changed = false } in
      let pass = sweep_tasks-Passed tasks w in
      let (p', ow') = pass_keeps tasks w p ow in
      let w' = (sweep_tasks tasks w).1 in
      let tasks' = (sweep_tasks tasks w).0 in
      elim (Bool-cases w'.changed) [
        | inl c ↦
            let fewer : live_tasks tasks' < fuel =
              omega (arith, pass.counted, pass.advance.progress refl c) in
            let (t, r, a, e, q, calm) = passes_end fuel tasks' w'.revoked w'.audit fewer p' ow' in
            (t, r, a, rw c e, q, calm)
        | inr c ↦
            let (kept, calm) = pass.quiet c in
            let same : w' ≡ w = pass.advance.same c in
            (tasks', w'.revoked, w'.audit, rw c refl, p', rw (same, kept) calm)
      ]
