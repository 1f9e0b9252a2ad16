-- ===== src/Service/Device/Access.antt =====
-- What a read of the keyboard through the device service gives, and who may make it.
use runix_os.Prelude.{
  ℕ, zero, suc, ◌+◌, ◌<◌, ◌≡◌, inl, inr, refl, ap, arith, true, false, ◌||◌, Bool-cases, Option,
  List, [], ◌∷◌, ◌==◌, length, byte_at, ltb, not, ◌&&◌, ◌∙◌, if◌then◌else◌,
}
use runix_os.Message.{Message, IpcTag, raw, dev_op}
use runix_os.Task.{Scheduler}
use runix_os.Service.{sender_holds}
use runix_os.Service.Authority.{Holds, sender_holds-Holds, Holds-sender_holds}
use runix_os.Keyboard.{KbdBuffer, pop}
use runix_os.Keyboard.Buffered
use runix_os.Service.Device.{
  Devices, dev_grants, dev_check_cap, read_keyboard, read_reply, read_device, write_device, operate,
  handle,
}

-- The loop takes all that was typed, in order, when it may go on long enough.
pub read_keyboard_lem :
    (typed : List ℕ) (n : ℕ) (b : KbdBuffer)
    → Buffered.Holds b typed
    → length typed < n
    → ((read_keyboard n b).0 ≡ typed) × Buffered.Holds (read_keyboard n b).1 []
unfolding read_keyboard
read_keyboard_lem typed zero b h lt = absurd (omega (arith, lt))
read_keyboard_lem [] (suc n) b h lt =
    let e = Buffered.pop-Holds_empty b h in simp (read_keyboard, e) (refl, h)
read_keyboard_lem (c ∷ typed) (suc n) b h lt =
    let (e, rest) = Buffered.pop-Holds b c typed h in
    let (f, g) = read_keyboard_lem typed n (pop b).1 rest (omega (arith, lt)) in
    simp (read_keyboard, e) (ap (◌∷◌ c) f, g)

-- The reply by the length of what was read.
read_reply-shown :
    (typed : List ℕ)
    → read_reply typed ≡ (if length typed == 0 then (2 ∷ []) else 0 ∷ length typed ∷ typed)
unfolding read_reply
read_reply-shown [] = refl
read_reply-shown (c ∷ typed) = let e : (length (c ∷ typed) == 0) ≡ false = ground arith in simp e

-- A task that may read the keyboard gets the code 0, the number of characters typed and all of
-- them, in the order typed, and the buffer is empty afterwards; the reply is code 2 alone when
-- nothing was typed. The serial port is as it was.
pub handle-keyboard :
    (from_utf8 : List ℕ → Option (List ℕ)) (devices : Devices) (sched : Scheduler) (msg : Message)
    (typed : List ℕ)
    → Buffered.Holds devices.keyboard typed
    → msg.tag ≡ dev_op
    → 1 < msg.len
    → byte_at msg.payload 0 ≡ 0
    → byte_at msg.payload 1 ≡ 1
    → Holds sched msg.sender (dev_grants 1 false)
    → let (devices', reply) = handle from_utf8 devices sched msg in
      (reply ≡ (if length typed == 0 then (2 ∷ []) else 0 ∷ length typed ∷ typed))
      × Buffered.Holds devices'.keyboard []
      × (devices'.serial_in ≡ devices.serial_in)
      × (devices'.serial_out ≡ devices.serial_out)
unfolding handle operate dev_check_cap read_device
handle-keyboard from_utf8 devices sched msg typed h t l op id may =
    let a = Holds-sender_holds sched msg.sender (dev_grants 1 false) may in
    let e : ltb msg.len 2 ≡ false = ground (arith, l) in
    let (f, g) = read_keyboard_lem typed 120 devices.keyboard h (omega (arith, h.bounded)) in
    simp (handle, operate, dev_check_cap, read_device, t, e, op, id, a)
      (ap read_reply f ∙ read_reply-shown typed, g, refl, refl)

-- What a request may do: a refusal is a code alone and changes nothing; else the sender holds a readable
-- capability for the device and only what was ready to be read is taken, or a writable one and nothing
-- is read.
pub data Guarded (devices : Devices) (sched : Scheduler) (msg : Message) (devices' : Devices)
    (reply : List ℕ) : Type 0 where
  refused :
      (code : ℕ)
      → 0 < code
      → reply ≡ code ∷ []
      → devices' ≡ devices
      → Guarded devices sched msg devices' reply
  reads :
      Holds sched msg.sender (dev_grants (byte_at msg.payload 1) false)
      → devices'.serial_out ≡ devices.serial_out
      → Guarded devices sched msg devices' reply
  writes :
      Holds sched msg.sender (dev_grants (byte_at msg.payload 1) true)
      → devices'.serial_in ≡ devices.serial_in
      → devices'.keyboard ≡ devices.keyboard
      → Guarded devices sched msg devices' reply

module _ (from_utf8 : List ℕ → Option (List ℕ)) (devices : Devices) (sched : Scheduler)
    (msg : Message) where
  read_device-Guarded :
      Holds sched msg.sender (dev_grants (byte_at msg.payload 1) false)
      → let (devices', reply) = read_device devices (byte_at msg.payload 1) in
        Guarded devices sched msg devices' reply
  unfolding read_device
  read_device-Guarded h = elim (Bool-cases (byte_at msg.payload 1 == 0)) [
    | inl e ↦ simp (read_device, e) (reads h refl)
    | inr e ↦ simp (read_device, e) (reads h refl)
  ]

  write_device-Guarded :
      Holds sched msg.sender (dev_grants (byte_at msg.payload 1) true)
      → let (devices', reply) = write_device from_utf8 devices msg (byte_at msg.payload 1) in
        Guarded devices sched msg devices' reply
  unfolding write_device
  write_device-Guarded h =
      let n = byte_at msg.payload 2 in
      elim (Bool-cases (ltb 120 n || ltb msg.len (3 + n))) [
        | inl e ↦ simp (write_device, e) (writes h refl refl)
        | inr e ↦ elim (Bool-cases (byte_at msg.payload 1 == 0)) [
          | inl f ↦ simp (write_device, e, f) (writes h refl refl)
          | inr f ↦ simp (write_device, e, f) (writes h refl refl)
        ]
      ]

  refuse : (code : ℕ) → 0 < code → Guarded devices sched msg devices (code ∷ [])
  refuse code c = refused code c refl refl

  operate-Guarded :
      let (devices', reply) = operate from_utf8 devices sched msg in
      Guarded devices sched msg devices' reply
  unfolding operate dev_check_cap
  operate-Guarded =
      let op = byte_at msg.payload 0 in
      let id = byte_at msg.payload 1 in
      elim (Bool-cases (not (id == 0) && not (id == 1))) [
        | inl e ↦ simp (operate, e) (refuse 3 (omega arith))
        | inr e ↦ elim (Bool-cases (op == 0)) [
          | inl f ↦ elim (Bool-cases (sender_holds sched msg.sender (dev_grants id false))) [
            | inl g ↦
                simp (operate, dev_check_cap, e, f, g)
                  (read_device-Guarded
                    (sender_holds-Holds sched msg.sender (dev_grants id false) g))
            | inr g ↦ simp (operate, dev_check_cap, e, f, g) (refuse 1 (omega arith))
          ]
          | inr f ↦ elim (Bool-cases (op == 1)) [
            | inl k ↦ elim (Bool-cases (sender_holds sched msg.sender (dev_grants id true))) [
              | inl g ↦
                  simp (operate, dev_check_cap, e, f, k, g)
                    (write_device-Guarded
                      (sender_holds-Holds sched msg.sender (dev_grants id true) g))
              | inr g ↦ simp (operate, dev_check_cap, e, f, k, g) (refuse 1 (omega arith))
            ]
            | inr k ↦ simp (operate, e, f, k) (refuse 3 (omega arith))
          ]
        ]
      ]

handle_tag-Guarded :
    (from_utf8 : List ℕ → Option (List ℕ)) (devices : Devices) (sched : Scheduler) (msg : Message)
    (tag : IpcTag)
    → msg.tag ≡ tag
    → let (devices', reply) = handle from_utf8 devices sched msg in
      Guarded devices sched msg devices' reply
unfolding handle
handle_tag-Guarded from_utf8 devices sched msg dev_op t = elim (Bool-cases (ltb msg.len 2)) [
  | inl e ↦ simp (handle, t, e) (refuse from_utf8 devices sched msg 3 (omega arith))
  | inr e ↦ simp (handle, t, e) (operate-Guarded from_utf8 devices sched msg)
]
handle_tag-Guarded from_utf8 devices sched msg raw t =
    simp (handle, t) (refuse from_utf8 devices sched msg 3 (omega arith))
handle_tag-Guarded from_utf8 devices sched msg _ t =
    simp (handle, t) (refuse from_utf8 devices sched msg 3 (omega arith))

-- No request takes or prints anything without the capability for its device.
pub handle-Guarded :
    (from_utf8 : List ℕ → Option (List ℕ)) (devices : Devices) (sched : Scheduler) (msg : Message)
    → let (devices', reply) = handle from_utf8 devices sched msg in
      Guarded devices sched msg devices' reply
handle-Guarded from_utf8 devices sched msg =
    handle_tag-Guarded from_utf8 devices sched msg msg.tag refl
