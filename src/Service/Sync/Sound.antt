-- ===== src/Service/Sync/Sound.antt =====
-- The eight objects of the synchronisation service, through every request.
use runix_os.Prelude.{
  ℕ, ◌≡◌, refl, sym, subst, arith, Bool-cases, false, List, [], ◌∷◌, ◌==◌, ltb, leb, length, get_or,
  set, byte_at, inl, inr, length-set, get_or-set_self, get_or-set_ne, get_or-replicate,
}
use runix_os.Message.{Message}
use runix_os.Task.{Scheduler}
use runix_os.Service.Sync.{SyncObject, fresh_object, new, operate, handle, is_sync_op}
use runix_os.Service.Sync.Permits.{IsSync, operate-IsSync}

-- All eight objects are sound.
pub record AreSync (objects : List SyncObject) : Type 0 where
  pub whole : length objects ≡ 8
  pub each : (id : ℕ) → (queue : List ℕ) × IsSync (get_or objects id fresh_object) queue

-- The objects after a sequence of requests, each with the tasks of its moment.
unfoldable pub run : List SyncObject → List (Scheduler × Message) → List SyncObject
run objects [] = objects
run objects ((sched, msg) ∷ rest) = run (handle objects sched msg).0 rest

pub fresh_object-IsSync : IsSync fresh_object []
fresh_object-IsSync = record {
  waits = record {
    whole = refl;
    head_in = omega arith;
    len_is = refl;
    bounded = omega arith;
    tail_is = refl;
    held = tt;
  };
  blocked = λ h. elim h [ ];
}

handle-AreSync :
    (objects : List SyncObject) (sched : Scheduler) (msg : Message)
    → AreSync objects
    → AreSync (handle objects sched msg).0
unfolding handle
handle-AreSync objects sched msg s =
    let id = byte_at msg.payload 1 in
    let e = operate (get_or objects id fresh_object) sched msg in
    let after : ltb msg.len 2 ≡ false → leb 8 id ≡ false → AreSync (set objects id e.object) =
      λ _ l. record {
        whole = rw length-set s.whole;
        each = λ j. elim (Bool-cases (id == j)) [
          | inl q ↦
              let (queue, k) = s.each id in
              let (queue', m, k') =
                operate-IsSync (get_or objects id fresh_object) queue sched msg k in
              let here : get_or (set objects id e.object) j fresh_object ≡ e.object =
                ground (arith, get_or-set_self objects id e.object fresh_object, s.whole) in
              (queue', subst (λ o. IsSync o queue') (sym here) k')
          | inr q ↦
              let there : get_or (set objects id e.object) j fresh_object
                  ≡ get_or objects j fresh_object =
                get_or-set_ne objects id j e.object fresh_object (ground arith) in
              let (queue, k) = s.each j in (queue, subst (λ o. IsSync o queue) (sym there) k)
        ];
      } in
    elim (Bool-cases (is_sync_op msg.tag)) [
      | inr a ↦ simp a s
      | inl a ↦ elim (Bool-cases (ltb msg.len 2)) [
        | inl b ↦ simp (a, b) s
        | inr b ↦ elim (Bool-cases (leb 8 id)) [
          | inl c ↦ simp (a, b, c) s
          | inr c ↦ simp (a, b, c) (after b c)
        ]
      ]
    ]

run-AreSync' :
    (objects : List SyncObject) (requests : List (Scheduler × Message))
    → AreSync objects
    → AreSync (run objects requests)
unfolding run
run-AreSync' objects [] s = s
run-AreSync' objects ((sched, msg) ∷ rest) s =
    run-AreSync' (handle objects sched msg).0 rest (handle-AreSync objects sched msg s)

-- Whatever requests the service has served, in whatever order and from whatever tasks: every object's
-- ring is a well-formed queue, and nobody waits at an object whose counter is positive.
pub run-AreSync : (requests : List (Scheduler × Message)) → AreSync (run new requests)
unfolding new
run-AreSync requests = run-AreSync' new requests (record {
  whole = refl;
  each = λ id.
      ([], subst (λ o. IsSync o []) (sym (get_or-replicate 8 id fresh_object)) fresh_object-IsSync);
})
