-- ===== src/Revocation/Complete.antt =====
-- The whole of `propagate_revocation`: it ends, and it revokes exactly the root's descendants.
use runix_os.Prelude.{
  ℕ, ◌<◌, ◌≡◌, ◌∙◌, ◌⊎◌, refl, sym, true, Option, none, some, List, [], ◌∷◌, arith, length, lt→ltb,
  slot_at, inl, inr,
}
use runix_os.Capability.{Capability}
use runix_os.Audit.{AuditLog}
use runix_os.Task.{Task, max_tasks}
use runix_os.Revocation.{is_revoked, is_hit, revoked_ids_cap, propagate_revocation, pass_fuel}
use runix_os.Revocation.Derived.{Held, Derived, itself, granted, Descends}
use runix_os.Revocation.Slots.{Swept}
use runix_os.Revocation.Pass.{live_tasks, QuietTasks, SweptTasks-refl}
use runix_os.Revocation.Fixpoint.{Propagated, passes_end}
use runix_os.Revocation.Lookup.{
  FullTables, live_tasks_le, live_tasks_at, live_table_at, tasks-Quiet, table-Quiet, tasks_swept,
  table-Swept, tasks_empty, owned_tasks,
}

-- A slot that holds a descendant of the root is emptied, any other is kept.
abbrev pub Settled : List (Option Task) → ℕ → Option Capability → Option Capability → Type 0
Settled tasks root before after =
    ((after ≡ before) × ((c : Capability) → before ≡ some c → ¬ Descends (Held tasks) root c))
    ⊎ ((after ≡ none) × ((c : Capability) × (before ≡ some c) × Descends (Held tasks) root c))

-- The tasks afterwards: as before, but for the slots of their tables.
pub record Purged (tasks : List (Option Task)) (root : ℕ) (after : List (Option Task))
    : Type 0 where
  pub settled :
      (i : ℕ) (t : Task)
      → slot_at tasks i ≡ some t
      → (u : Task) × (slot_at after i ≡ some u)
        × (u ≡ record t { cap_table = u.cap_table })
        × ((s : ℕ) → Settled tasks root (slot_at t.cap_table s) (slot_at u.cap_table s))
  pub empty : (i : ℕ) → slot_at tasks i ≡ none → slot_at after i ≡ none

is_hit_room :
    (revoked : List ℕ) (cap : Capability) (parent : ℕ)
    → cap.origin ≡ some parent
    → is_revoked revoked parent ≡ true
    → length revoked < revoked_ids_cap
    → is_hit revoked (some cap) ≡ true
unfolding is_hit
is_hit_room revoked cap parent e r lt = simp (e, r, lt→ltb (length revoked) revoked_ids_cap lt)

module _ (tasks0 : List (Option Task)) (root : ℕ) (tasks : List (Option Task)) (revoked : List ℕ)
    (p : Propagated (Held tasks0) root tasks0 tasks revoked) (calm : QuietTasks revoked tasks)
    (bound : live_tasks tasks0 < revoked_ids_cap) where
  -- What was granted from a revoked identity and is still there would be revoked by one more pass.
  not_kept :
      (i : ℕ) (n : Task) (s : ℕ) (cap : Capability) (parent : ℕ)
      → slot_at tasks i ≡ some n
      → slot_at n.cap_table s ≡ some cap
      → cap.origin ≡ some parent
      → is_revoked revoked parent ≡ true
      → ⊥
  not_kept i n s cap parent at here e r =
      let room : length revoked < revoked_ids_cap = omega (
        arith,
        p.counted,
        bound,
        live_tasks_at tasks i n at,
        live_table_at n.cap_table s cap here,
      ) in
      let hit = is_hit_room revoked cap parent e r room in
      let miss =
        table-Quiet revoked n.cap_table s cap (tasks-Quiet revoked tasks i n calm at) here in
      cc

  all_revoked : (id : ℕ) → Derived (Held tasks0) root id → is_revoked revoked id ≡ true
  all_revoked i (itself id e) = rw e p.root_in
  all_revoked i (granted cap parent id h o e d) =
      let r = all_revoked parent d in
      let (n, at, rest, sw) = tasks_swept revoked tasks0 tasks p.swept h.task_at h.task h.found in
      elim (table-Swept revoked h.task.cap_table n.cap_table sw h.slot_is) [
        | inl kept ↦ absurd (not_kept h.task_at n h.slot_is cap parent at (kept ∙ h.held) o r)
        | inr (c, q, a, b, f, x, y) ↦
            let same : cap.id ≡ c.id = ground (arith, h.held) in rw (sym e ∙ same) y
      ]

  Settled-at :
      (i : ℕ) (t : Task) (n : Task) (s : ℕ)
      → slot_at tasks i ≡ some n
      → Swept revoked (slot_at t.cap_table s) (slot_at n.cap_table s)
      → Settled tasks0 root (slot_at t.cap_table s) (slot_at n.cap_table s)
  Settled-at i t n s at (inl kept) = inl (
    kept,
    λ c e d. not_kept i n s c d.parent at (kept ∙ e) d.origin_is (all_revoked d.parent d.derived),
  )
  Settled-at i t n s at (inr (c, q, a, b, f, x, y)) =
      inr (b, (c, a, record { parent = q; origin_is = f; derived = p.sound q x }))

  pub purged : Purged tasks0 root tasks
  purged = record {
    settled = λ i t e.
        let (n, at, rest, sw) = tasks_swept revoked tasks0 tasks p.swept i t e in
        (
          n,
          at,
          rest,
          λ s. Settled-at i t n s at (table-Swept revoked t.cap_table n.cap_table sw s),
        );
    empty = λ i e. tasks_empty revoked tasks0 tasks p.swept i e;
  }

started :
    (tasks : List (Option Task)) (root : ℕ) → Propagated (Held tasks) root tasks tasks (root ∷ [])
unfolding is_revoked
started tasks root = record {
  swept = SweptTasks-refl (root ∷ []) tasks;
  sound = λ id h. itself id (ground arith);
  root_in = ground arith;
  counted = refl;
}

-- With a full task array and full tables, propagating a revocation ends, and then a slot is empty
-- if its capability was granted, through any number of grants, from the root's identity; every
-- other slot, and all else of every task, is as it was.
pub propagate_revocation_lem :
    (tasks : List (Option Task)) (audit : AuditLog) (root : ℕ)
    → length tasks ≡ max_tasks
    → FullTables tasks
    → (after : List (Option Task)) × (revoked : List ℕ) × (audit' : AuditLog)
      × (propagate_revocation tasks audit root ≡ some (after, revoked, audit'))
      × (Purged tasks root after)
unfolding propagate_revocation
propagate_revocation_lem tasks audit root len full =
    let few : live_tasks tasks < pass_fuel = omega (arith, live_tasks_le tasks full, len) in
    let ow =
      owned_tasks (Held tasks) root tasks
        (λ i t s c e f. record { task_at = i; slot_is = s; task = t; found = e; held = f }) in
    let (after, revoked, audit', e, p, calm) =
      passes_end (Held tasks) root tasks pass_fuel tasks (root ∷ []) audit few (started tasks root)
        ow in
    (after, revoked, audit', e, purged tasks root after revoked p calm few)
