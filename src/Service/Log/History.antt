-- ===== src/Service/Log/History.antt =====
-- The ring of the log as the list of all entries ever published, of which it keeps the last 128.
use runix_os.Prelude.{
  ℕ, zero, suc, ◌+◌, ◌%◌, ◌^◌, ◌<◌, ◌≤◌, ◌≡◌, ◌≢◌, refl, sym, ap, ◌∙◌, arith, Bool-cases, List, [],
  ◌∷◌, ◌++◌, ◌==◌, length, get_or, set, inl, inr, length-set, length-append, get_or-set_self,
  get_or-set_ne,
}
use runix_os.Service.Log.{LogEntry, empty_entry, log_capacity, LogRingBuffer, new, push, entry_at}

-- The ring stands for `history`, the oldest entry first.
pub record Keeps (log : LogRingBuffer) (history : List LogEntry) : Type 0 where
  pub whole : length log.buffer ≡ log_capacity
  pub position : log.write_pos ≡ length history
  pub kept :
      (i : ℕ)
      → i < length history
      → length history ≤ i + log_capacity
      → entry_at log i ≡ get_or history i empty_entry

pub new-Keeps : Keeps new []
unfolding new
new-Keeps = record { whole = refl; position = refl; kept = λ i h. elim h [ ] }

get_or-append_left :
    (xs ys : List LogEntry) (i : ℕ)
    → i < length xs
    → get_or (xs ++ ys) i empty_entry ≡ get_or xs i empty_entry
get_or-append_left [] ys i h = elim h [ ]
get_or-append_left (x ∷ xs) ys zero h = refl
get_or-append_left (x ∷ xs) ys (suc i) h = get_or-append_left xs ys i (omega arith)

get_or-append_last :
    (xs : List LogEntry) (y : LogEntry) → get_or (xs ++ (y ∷ [])) (length xs) empty_entry ≡ y
get_or-append_last [] y = refl
get_or-append_last (x ∷ xs) y = get_or-append_last xs y

-- Two positions less than 128 apart have different cells.
positions_differ : (w i : ℕ) → i < w → w < i + log_capacity → w % log_capacity ≢ i % log_capacity
positions_differ w i a b e = omega arith

-- A published entry comes after all others, and the last 128 are kept.
pub push-Keeps :
    (log : LogRingBuffer) (history : List LogEntry) (entry : LogEntry)
    → length history + 1 < 2 ^ 64
    → Keeps log history
    → Keeps (push log entry) (history ++ (entry ∷ []))
unfolding push
push-Keeps log history entry bound k =
    let w = log.write_pos in
    let l = length-append history (entry ∷ []) in
    record {
      whole = length-set log.buffer (w % log_capacity) entry ∙ k.whole;
      position = omega (arith, k.position, l);
      kept = λ i h near. elim (Bool-cases (i == w)) [
        | inl e ↦
            let q : i ≡ length history = ground (arith, k.position) in
            ap
              (λ j. get_or (set log.buffer (w % log_capacity) entry) (j % log_capacity) empty_entry)
              (ground arith)
            ∙ (get_or-set_self log.buffer (w % log_capacity) entry empty_entry
                  (omega (arith, k.whole))
                ∙ sym (
                    ap (λ j. get_or (history ++ (entry ∷ [])) j empty_entry) q
                    ∙ get_or-append_last history entry))
        | inr e ↦
            get_or-set_ne log.buffer (w % log_capacity) (i % log_capacity) entry empty_entry
              (positions_differ w i (ground (arith, k.position, l)) (ground (arith, k.position, l)))
            ∙ (k.kept i (ground (arith, k.position, l)) (ground (arith, k.position, l))
                ∙ sym (get_or-append_left history (entry ∷ []) i (ground (arith, k.position, l))))
      ];
    }
