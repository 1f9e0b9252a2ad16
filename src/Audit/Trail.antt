-- ===== src/Audit/Trail.antt =====
-- The ring keeps the last 64 events of the history, and `dump` lists them oldest first.
use mathlib.Core.List.{append_assoc, append-nil}
use runix_os.Prelude.{
  ℕ, suc, ◌+◌, ◌-◌, ◌%◌, ◌≤◌, ◌<◌, ◌≡◌, ◌∙◌, refl, ap, sym, subst, true, false, none, some, List,
  [], ◌∷◌, ◌++◌, map, min, arith, length, length-set, length-append, add_word, word_max, slot_at,
  Holds, Holds-snoc, dec_lt, ltb,
}
use runix_os.Capability.Table.{slot_at-get_elem?, slot_at-set_ne, slot_at-replicate}
use runix_os.Audit.{AuditEvent, AuditLog, audit_capacity, new, push, push_all, walk, dump}

-- The log after the history `old ++ kept`: `kept` is in the ring, `old` is overwritten.
pub record Keeps (log : AuditLog) (old kept : List AuditEvent) : Type 0 where
  pub cells : length log.buffer ≡ audit_capacity
  pub total_is : log.total ≡ length old + length kept
  pub dropped_is : log.dropped ≡ length old
  pub bounded : length kept ≤ audit_capacity
  pub full_if_old : length old ≡ log.total - audit_capacity
  pub next_is : log.next ≡ log.total % audit_capacity
  pub held :
      Holds log.buffer audit_capacity
        ((log.total - audit_capacity) % audit_capacity)
        (map some kept)
  pub unused : (j : ℕ) → j < audit_capacity → log.total ≤ j → slot_at log.buffer j ≡ none

new-Keeps : Keeps new [] []
unfolding new
new-Keeps = record {
  cells = refl;
  total_is = refl;
  dropped_is = refl;
  bounded = omega arith;
  full_if_old = refl;
  next_is = refl;
  held = tt;
  unused = λ j _ _. slot_at-replicate 64 j;
}

length-some : (es : List AuditEvent) → length (map some es) ≡ length es
length-some [] = refl
length-some (e ∷ es) = ap suc (length-some es)

map-snoc :
    (es : List AuditEvent) (e : AuditEvent)
    → map some (es ++ (e ∷ [])) ≡ map some es ++ (some e ∷ [])
map-snoc [] e = refl
map-snoc (x ∷ es) e = ap (◌∷◌ (some x)) (map-snoc es e)

-- While the ring has room, the event joins the kept ones.
push_room :
    (log : AuditLog) (old kept : List AuditEvent) (ev : AuditEvent)
    → Keeps log old kept
    → log.total < audit_capacity
    → Keeps (push log ev) old (kept ++ (ev ∷ []))
unfolding push
push_room log old kept ev v lt = record {
  cells = omega (arith, length-set log.buffer log.next (some ev));
  total_is = omega (arith, v, length-append kept (ev ∷ []));
  dropped_is = rw (v.unused log.next (omega arith) (omega arith)) v.dropped_is;
  bounded = omega (arith, v, length-append kept (ev ∷ []));
  full_if_old = omega arith;
  next_is = omega arith;
  held =
      let z : (log.total - 64) % 64 ≡ 0 = omega arith in
      let z' : (add_word log.total 1 - 64) % 64 ≡ 0 = omega arith in
      let h : Holds log.buffer 64 0 (map some kept) =
        subst (λ k. Holds log.buffer 64 k (map some kept)) z v.held in
      rw (map-snoc kept ev, z')
        (Holds-snoc log.buffer 64 (some ev) (map some kept) 0 log.next (omega arith)
          (omega (arith, length-some kept)) (omega arith) (omega (arith, length-some kept)) h);
  unused = λ j lj le.
      slot_at-set_ne log.buffer log.next j (some ev) (λ q. omega arith)
      ∙ v.unused j lj (omega arith);
}

-- On a full ring the event takes the place of the oldest one.
push_full :
    (log : AuditLog) (old : List AuditEvent) (first : AuditEvent) (kept : List AuditEvent)
    (ev : AuditEvent)
    → Keeps log old (first ∷ kept)
    → audit_capacity ≤ log.total
    → log.total < word_max
    → Keeps (push log ev) (old ++ (first ∷ [])) (kept ++ (ev ∷ []))
unfolding push
push_full log old first kept ev v le lt =
    let s : (log.total - 64) % 64 ≡ log.next = omega arith in
    let s' : (add_word log.total 1 - 64) % 64 ≡ (log.next + 1) % 64 = omega arith in
    let h : Holds log.buffer 64 log.next (map some (first ∷ kept)) =
      subst (λ k. Holds log.buffer 64 k (map some (first ∷ kept))) s v.held in
    record {
      cells = omega (arith, length-set log.buffer log.next (some ev));
      total_is = omega (arith, v, length-append kept (ev ∷ []), length-append old (first ∷ []));
      dropped_is =
          rw (slot_at-get_elem? log.buffer log.next h.0)
            (omega (arith, v, length-append old (first ∷ [])));
      bounded = omega (arith, v, length-append kept (ev ∷ []));
      full_if_old = omega (arith, v, length-append old (first ∷ []));
      next_is = omega arith;
      held =
          rw (map-snoc kept ev, s')
            (Holds-snoc log.buffer 64 (some ev) (map some kept) ((log.next + 1) % 64) log.next
              (omega arith) (omega (arith, length-some kept)) (omega arith)
              (omega (arith, length-some kept)) h.1);
      unused = λ j lj q. absurd (omega arith);
    }

-- One event more: the history grows by it at the end.
push-Keeps :
    (log : AuditLog) (old kept : List AuditEvent) (ev : AuditEvent)
    → Keeps log old kept
    → log.total < word_max
    → (old' kept' : List AuditEvent) × (Keeps (push log ev) old' kept')
      × (old' ++ kept' ≡ (old ++ kept) ++ (ev ∷ []))
push-Keeps log old [] ev v lt =
    (old, ev ∷ [], push_room log old [] ev v (omega arith), sym (append_assoc old [] (ev ∷ [])))
push-Keeps log old (first ∷ kept) ev v lt = elim (dec_lt log.total audit_capacity) [
  | yes room ↦ (
    old,
    first ∷ (kept ++ (ev ∷ [])),
    push_room log old (first ∷ kept) ev v room,
    sym (append_assoc old (first ∷ kept) (ev ∷ [])),
  )
  | no full ↦ (
    old ++ (first ∷ []),
    kept ++ (ev ∷ []),
    push_full log old first kept ev v (omega arith) lt,
    simp append_assoc,
  )
]

push_all-Keeps :
    (log : AuditLog) (old kept evs : List AuditEvent)
    → Keeps log old kept
    → log.total + length evs ≤ word_max
    → (old' kept' : List AuditEvent) × (Keeps (push_all log evs) old' kept')
      × (old' ++ kept' ≡ (old ++ kept) ++ evs)
unfolding push_all
push_all-Keeps log old kept [] v lt = (old, kept, v, sym (append-nil (old ++ kept)))
push_all-Keeps log old kept (ev ∷ evs) v lt =
    let (old1, kept1, v1, e1) = push-Keeps log old kept ev v (omega arith) in
    let grown : (push log ev).total ≡ log.total + 1 = unfold push in (omega arith) in
    let (old2, kept2, v2, e2) = push_all-Keeps (push log ev) old1 kept1 evs v1 (omega arith) in
    (old2, kept2, v2, e2 ∙ rw e1 (append_assoc (old ++ kept) (ev ∷ []) evs))

-- Events numbered from `i` on.
abbrev pub number : ℕ → List AuditEvent → List (ℕ × AuditEvent)
number i [] = []
number i (ev ∷ evs) = (i, ev) ∷ number (i + 1) evs

walk-Holds :
    (log : AuditLog) (start : ℕ) (evs : List AuditEvent) (i h : ℕ)
    → h ≡ (start + i) % audit_capacity
    → Holds log.buffer audit_capacity h (map some evs)
    → walk log start i (length evs) ≡ number i evs
unfolding walk
walk-Holds log start [] i h e w = refl
walk-Holds log start (ev ∷ evs) i h e w =
    let e' : (h + 1) % 64 ≡ (start + (i + 1)) % 64 = omega arith in
    rw (← e, slot_at-get_elem? log.buffer h w.0, walk)
      (ap (◌∷◌ (i, ev)) (walk-Holds log start evs (i + 1) ((h + 1) % 64) e' w.1))

dump-Keeps :
    (log : AuditLog) (old kept : List AuditEvent) → Keeps log old kept → dump log ≡ number 0 kept
unfolding dump
dump-Keeps log old kept v = elim (dec_lt audit_capacity log.total) [
  | yes over ↦
      let n : length kept ≡ 64 = omega arith in
      let t : ltb 64 log.total ≡ true = ground arith in
      rw (t, ← n) (walk-Holds log log.next kept 0 _ (omega arith) v.held)
  | no under ↦
      let n : length kept ≡ log.total = omega arith in
      let t : ltb 64 log.total ≡ false = ground arith in
      rw (t, ← n) (walk-Holds log 0 kept 0 _ (omega arith) v.held)
]

-- After any history shorter than 2^64 events, `dump` lists exactly the last 64 of them, or all if
-- there are fewer, oldest first and numbered from 0; `total` counts the history and `dropped` the
-- events that are no longer listed.
pub dump-push_all :
    (evs : List AuditEvent)
    → length evs ≤ word_max
    → let log = push_all new evs in
      (old kept : List AuditEvent) × (evs ≡ old ++ kept)
      × (length kept ≡ min audit_capacity (length evs))
      × (dump log ≡ number 0 kept)
      × (log.total ≡ length evs)
      × (log.dropped ≡ length old)
unfolding new
dump-push_all evs lt =
    let (old, kept, v, e) = push_all-Keeps new [] [] evs new-Keeps (omega arith) in
    let n : length old + length kept ≡ length evs =
      omega (arith, length-append old kept, ap length e) in
    (old, kept, sym e, omega arith, dump-Keeps _ old kept v, omega arith, v.dropped_is)
