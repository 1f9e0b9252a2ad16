-- ===== src/Service/Kv/Access.antt =====
-- Who may read and write a slot of the key-value service, and that a read gives what was written.
use runix_os.Prelude.{
  ℕ, ◌<◌, ◌≡◌, ◌≢◌, ◌⊎◌, inl, inr, refl, arith, true, false, List, [], ◌∷◌, ◌++◌, length, get_or,
  byte_at, slice_of, Bool-cases, ltb, leb, get_or-set_self, get_or-set_ne,
}
use runix_os.Message.{Message, IpcTag, kv_get, kv_set, raw}
use runix_os.Task.{Scheduler}
use runix_os.Service.Authority.{Holds, sender_holds-Holds, Holds-sender_holds}
use runix_os.Service.Kv.{KvSlot, empty_slot, kv_grants, check_sender_cap, kv_read, kv_write, handle}

-- A write that was carried out.
pub record Written (store : List KvSlot) (sched : Scheduler) (msg : Message) (store' : List KvSlot)
    : Type 0 where
  pub is_set : msg.tag ≡ kv_set
  pub whole : 80 < msg.len
  pub in_range : byte_at msg.payload 0 < 32
  pub authority : Holds sched msg.sender (kv_grants (byte_at msg.payload 0) true)
  pub stored :
      get_or store' (byte_at msg.payload 0) empty_slot
      ≡ record { key = slice_of msg.payload 1 16; value = slice_of msg.payload 17 64 }
  pub others :
      (i : ℕ) → byte_at msg.payload 0 ≢ i → get_or store' i empty_slot ≡ get_or store i empty_slot

-- A read that was answered.
pub record Answered (store : List KvSlot) (sched : Scheduler) (msg : Message) (reply : List ℕ)
    : Type 0 where
  pub is_get : msg.tag ≡ kv_get
  pub in_range : byte_at msg.payload 0 < 32
  pub authority : Holds sched msg.sender (kv_grants (byte_at msg.payload 0) false)
  pub shown :
      reply
      ≡ 0 ∷ (get_or store (byte_at msg.payload 0) empty_slot).key
        ++ (get_or store (byte_at msg.payload 0) empty_slot).value

-- A code alone, and not the code of success.
abbrev pub IsRefusal : List ℕ → Type 0
IsRefusal reply = (reply ≡ 1 ∷ []) ⊎ (reply ≡ 2 ∷ [])

-- The three ways in which a request ends.
abbrev pub Served : List KvSlot → Scheduler → Message → List KvSlot → List ℕ → Type 0
Served store sched msg store' reply =
    ((store' ≡ store) × IsRefusal reply)
    ⊎ (((store' ≡ store) × Answered store sched msg reply)
        ⊎ (Written store sched msg store' × (reply ≡ 0 ∷ [])))

kv_write-Served :
    (store : List KvSlot) (sched : Scheduler) (msg : Message)
    → length store ≡ 32
    → msg.tag ≡ kv_set
    → Served store sched msg (kv_write store sched msg).0 (kv_write store sched msg).1
unfolding kv_write check_sender_cap
kv_write-Served store sched msg v t =
    let slot = byte_at msg.payload 0 in
    elim (Bool-cases (ltb msg.len 81)) [
      | inl e ↦ inl (simp (kv_write, e), inr (simp (kv_write, e)))
      | inr e ↦ elim (Bool-cases (leb 32 slot)) [
        | inl f ↦ inl (simp (kv_write, e, f), inr (simp (kv_write, e, f)))
        | inr f ↦ elim (Bool-cases (check_sender_cap sched msg.sender slot true)) [
          | inr g ↦ inl (simp (kv_write, e, f, g), inl (simp (kv_write, e, f, g)))
          | inl g ↦
              let entry : KvSlot = record {
                key = slice_of msg.payload 1 16;
                value = slice_of msg.payload 17 64;
              } in
              simp (kv_write, e, f, g)
                (inr (
                  inr (
                    record {
                      is_set = t;
                      whole = ground arith;
                      in_range = ground arith;
                      authority = sender_holds-Holds sched msg.sender (kv_grants slot true) g;
                      stored = get_or-set_self store slot entry empty_slot (ground arith);
                      others = λ i ne. get_or-set_ne store slot i entry empty_slot ne;
                    },
                    refl,
                  )))
        ]
      ]
    ]

kv_read-Served :
    (store : List KvSlot) (sched : Scheduler) (msg : Message)
    → msg.tag ≡ kv_get
    → Served store sched msg store (kv_read store sched msg)
unfolding kv_read check_sender_cap
kv_read-Served store sched msg t =
    let slot = byte_at msg.payload 0 in
    elim (Bool-cases (ltb msg.len 1)) [
      | inl e ↦ inl (refl, inr (simp (kv_read, e)))
      | inr e ↦ elim (Bool-cases (leb 32 slot)) [
        | inl f ↦ inl (refl, inr (simp (kv_read, e, f)))
        | inr f ↦ elim (Bool-cases (check_sender_cap sched msg.sender slot false)) [
          | inr g ↦ inl (refl, inl (simp (kv_read, e, f, g)))
          | inl g ↦ inr (
              inl (
                refl,
                record {
                  is_get = t;
                  in_range = ground arith;
                  authority = sender_holds-Holds sched msg.sender (kv_grants slot false) g;
                  shown = simp (kv_read, e, f, g);
                },
              ))
        ]
      ]
    ]

handle_tag :
    (store : List KvSlot) (sched : Scheduler) (msg : Message) (tag : IpcTag)
    → length store ≡ 32
    → msg.tag ≡ tag
    → Served store sched msg (handle store sched msg).0 (handle store sched msg).1
unfolding handle
handle_tag store sched msg kv_get v e = simp (handle, e) (kv_read-Served store sched msg e)
handle_tag store sched msg kv_set v e = simp (handle, e) (kv_write-Served store sched msg v e)
handle_tag store sched msg raw v e = simp (handle, e) (inl (refl, inr refl))
handle_tag store sched msg _ v e = simp (handle, e) (inl (refl, inr refl))

-- Every request ends in one of three ways: it is refused with a code alone, and the store is as it was;
-- it is a get of a slot in range, the store is as it was, and the sender, which holds a readable
-- capability for that slot, is shown the slot; or it is a set, the sender holds a writable
-- capability for the slot, the slot has the new key and value, and no other slot changed.
pub handle-Served :
    (store : List KvSlot) (sched : Scheduler) (msg : Message)
    → length store ≡ 32
    → let (store', reply) = handle store sched msg in Served store sched msg store' reply
handle-Served store sched msg v = handle_tag store sched msg msg.tag v refl

-- After a write that was carried out, any later read of the slot that passes the check, by whatever
-- task, is shown exactly the written bytes.
pub kv_read-kv_write :
    (store : List KvSlot) (sched sched' : Scheduler) (w r : Message)
    → length store ≡ 32
    → (kv_write store sched w).1 ≡ 0 ∷ []
    → 0 < r.len
    → byte_at r.payload 0 ≡ byte_at w.payload 0
    → Holds sched' r.sender (kv_grants (byte_at r.payload 0) false)
    → kv_read (kv_write store sched w).0 sched' r
      ≡ 0 ∷ slice_of w.payload 1 16 ++ slice_of w.payload 17 64
unfolding kv_read kv_write check_sender_cap
kv_read-kv_write store sched sched' w r v done len same h =
    let slot = byte_at w.payload 0 in
    let entry : KvSlot = record {
      key = slice_of w.payload 1 16;
      value = slice_of w.payload 17 64;
    } in
    let may = Holds-sender_holds sched' r.sender (kv_grants (byte_at r.payload 0) false) h in
    ground (arith, may, get_or-set_self store slot entry empty_slot)
