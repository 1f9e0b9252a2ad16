-- ===== src/Service/Log/Read.antt =====
-- What a read of the log finds: the first entry of its kind that the reader's cursor has not passed.
use runix_os.Prelude.{
  ℕ, zero, suc, ◌+◌, ◌-◌, ◌<◌, ◌≤◌, ◌≡◌, ◌≢◌, ◌⊎◌, refl, ap, ◌∙◌, arith, Bool-cases, none, some,
  List, [], ◌∷◌, ◌==◌, length, get_or, inl, inr,
}
use runix_os.Service.Log.{
  LogEntry, empty_entry, log_capacity, LogRingBuffer, entry_at, entry_bytes, find_kind,
  first_unread, read_from,
}
use runix_os.Service.Log.History.{Keeps}

-- No position from `a` up to `b` has an entry of the kind.
abbrev pub NoneIn : (ℕ → LogEntry) → ℕ → ℕ → ℕ → Type 0
NoneIn at kind a b = (j : ℕ) → a ≤ j → j < b → (at j).kind ≢ kind

-- `i` is the first position from `a` up to `b` with an entry of the kind.
pub record IsFirst (at : ℕ → LogEntry) (kind a b i : ℕ) : Type 0 where
  pub from : a ≤ i
  pub below : i < b
  pub found : (at i).kind ≡ kind
  pub before : NoneIn at kind a i

find_kind_lem :
    (log : LogRingBuffer) (kind idx n : ℕ)
    → ((find_kind log kind idx n ≡ none) × NoneIn (entry_at log) kind idx (idx + n))
      ⊎ ((i : ℕ) × (find_kind log kind idx n ≡ some i)
          × IsFirst (entry_at log) kind idx (idx + n) i)
unfolding find_kind
find_kind_lem log kind idx zero = inl (refl, λ j a b. absurd (omega arith))
find_kind_lem log kind idx (suc n) = elim (Bool-cases ((entry_at log idx).kind == kind)) [
  | inl e ↦ inr (
    idx,
    simp e,
    record {
      from = omega arith;
      below = omega arith;
      found = ground arith;
      before = λ j a b. absurd (omega arith);
    },
  )
  | inr e ↦
      let here : (j : ℕ) → j ≡ idx → (entry_at log j).kind ≢ kind = λ j q. ground (arith, q, e) in
      elim (find_kind_lem log kind (idx + 1) n) [
        | inl (f, nowhere) ↦ inl (
          simp (e, f),
          λ j a b. elim (Bool-cases (j == idx)) [
            | inl q ↦ here j (ground arith)
            | inr q ↦ nowhere j (ground arith) (ground arith)
          ],
        )
        | inr (i, f, first) ↦ inr (
          i,
          simp (e, f),
          record {
            from = omega (arith, first.from);
            below = omega (arith, first.below);
            found = first.found;
            before = λ j a b. elim (Bool-cases (j == idx)) [
              | inl q ↦ here j (ground arith)
              | inr q ↦ first.before j (ground arith) b
            ];
          },
        )
      ]
]

-- The position in the history where a search begins: the cursor, or the oldest entry that is kept.
abbrev pub Start : List LogEntry → ℕ → ℕ → Type 0
Start history cursor from =
    (cursor ≤ from)
    × (length history ≤ from + log_capacity)
    × ((from ≡ cursor) ⊎ (from + log_capacity ≡ length history))

module _ (log : LogRingBuffer) (history : List LogEntry) (cursor : ℕ) (k : Keeps log history)
    (c : cursor ≤ length history) where
  first_unread-Start : Start history cursor (first_unread log cursor)
  first_unread-Start = ground (arith, k.position)

  first_unread_end :
      first_unread log cursor + (log.write_pos - first_unread log cursor) ≡ length history
  first_unread_end = ground (arith, k.position)

-- A reader whose cursor is not past the end is shown the first entry of its kind in the whole history, from
-- its cursor on or from the oldest of the last 128, and its cursor moves just past it; or there is none,
-- the reply is code 2, and its cursor moves to the end.
pub read_from-Keeps :
    (log : LogRingBuffer) (history : List LogEntry) (cursor kind : ℕ)
    → Keeps log history
    → cursor ≤ length history
    → let at : ℕ → LogEntry = λ j. get_or history j empty_entry in
      (from : ℕ) × Start history cursor from
      × (((read_from log cursor kind ≡ (length history, 2 ∷ []))
            × NoneIn at kind from (length history))
          ⊎ ((i : ℕ) × IsFirst at kind from (length history) i
              × (read_from log cursor kind ≡ (i + 1, 0 ∷ entry_bytes (at i)))))
unfolding read_from
read_from-Keeps log history cursor kind k c =
    let at : ℕ → LogEntry = λ j. get_or history j empty_entry in
    let from = first_unread log cursor in
    let start : Start history cursor from = first_unread-Start log history cursor k c in
    let same : (j : ℕ) → from ≤ j → j < length history → entry_at log j ≡ at j =
      λ j a b. k.kept j b (omega (arith, start.1)) in
    let end : from + (log.write_pos - from) ≡ length history =
      first_unread_end log history cursor k c in
    elim (find_kind_lem log kind from (log.write_pos - from)) [
      | inl (f, nowhere) ↦ (
        from,
        start,
        inl (
          simp (read_from, f) (ap (λ w. (w, 2 ∷ [])) k.position),
          λ j a b q. nowhere j a (omega (arith, end)) (ap (λ e. e.kind) (same j a b) ∙ q),
        ),
      )
      | inr (i, f, first) ↦
          let b : i < length history = omega (arith, first.below, end) in
          let here = same i first.from b in
          (
            from,
            start,
            inr (
              i,
              record {
                from = first.from;
                below = b;
                found = cc (here, first.found);
                before = λ j a l q.
                    first.before j a l (ap (λ e. e.kind) (same j a (omega (arith, l, b))) ∙ q);
              },
              simp (read_from, f, here),
            ),
          )
    ]
