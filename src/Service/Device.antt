-- ===== src/Service/Device.antt =====
-- kernel/shell/mod.rs, the device service: reads and writes of the serial port and reads of the keyboard.
-- The bytes that the port has ready are part of the state, and what `from_utf8` makes of the bytes to
-- print is a parameter. Only the first `reply_len` bytes of a reply are sent, and these are what
-- `handle` gives. The counter of operations is left out.
pub mod Access
use runix_os.Prelude.{
  ℕ, zero, suc, ◌+◌, Bool, true, false, ◌&&◌, not, ◌||◌, Option, none, some, List, [], ◌∷◌, ◌++◌,
  ◌==◌, if◌then◌else◌, ltb, length, byte_at, slice_of,
}
use runix_os.Capability.{TaskId, Capability, device}
use runix_os.Message.{Message, IpcTag, dev_op, dev_reply}
use runix_os.Task.{Scheduler}
use runix_os.Kernel.{Kernel}
use runix_os.Ipc.{Result}
use runix_os.Service.{sender_holds, grants, reply_typed}
use runix_os.Keyboard.{KbdBuffer, pop}

-- The keyboard's buffer, the bytes that the serial port has ready, and those it was given.
pub record Devices : Type 0 where
  pub keyboard : KbdBuffer
  pub serial_in : List ℕ
  pub serial_out : List ℕ

-- The test of one capability in `dev_check_cap`.
unfoldable pub dev_grants : ℕ → Bool → Capability → Bool
dev_grants id require_write cap = elim cap.resource [
  | device i readable writable ↦ i == id && grants cap readable writable require_write
  | _ ↦ false
]

unfoldable pub dev_check_cap : Scheduler → TaskId → ℕ → Bool → Bool
dev_check_cap sched sender id require_write =
    sender_holds sched sender (dev_grants id require_write)

-- The loop that reads the serial port: at most `n` bytes.
unfoldable pub read_serial : ℕ → List ℕ → List ℕ × List ℕ
read_serial zero ready = ([], ready)
read_serial (suc n) [] = ([], [])
read_serial (suc n) (b ∷ ready) = let (bytes, ready') = read_serial n ready in (b ∷ bytes, ready')

-- The loop that reads the keyboard: at most `n` characters.
unfoldable pub read_keyboard : ℕ → KbdBuffer → List ℕ × KbdBuffer
read_keyboard zero buffer = ([], buffer)
read_keyboard (suc n) buffer =
    let (key, buffer') = pop buffer in
    let (bytes, buffer'') = read_keyboard n buffer' in
    elim key [ none ↦ ([], buffer') | some b ↦ (b ∷ bytes, buffer'') ]

-- `if read_len > 0`
unfoldable pub read_reply : List ℕ → List ℕ
read_reply [] = 2 ∷ []
read_reply (b ∷ bytes) = 0 ∷ length (b ∷ bytes) ∷ b ∷ bytes

unfoldable pub read_device : Devices → ℕ → Devices × List ℕ
read_device devices dev_id =
    let (typed, keyboard) = read_keyboard 120 devices.keyboard in
    let (bytes, ready) = read_serial 120 devices.serial_in in
    if dev_id == 0
    then (record devices { serial_in = ready }, read_reply bytes)
    else (record devices { keyboard = keyboard }, read_reply typed)

module _ (from_utf8 : List ℕ → Option (List ℕ)) where
  unfoldable pub write_device : Devices → Message → ℕ → Devices × List ℕ
  write_device devices msg dev_id =
      let write_len = byte_at msg.payload 2 in
      let text : List ℕ = elim (from_utf8 (slice_of msg.payload 3 write_len)) [
        | none ↦ []
        | some t ↦ t
      ] in
      if ltb 120 write_len || ltb msg.len (3 + write_len)
      then (devices, 3 ∷ [])
      else if dev_id == 0
      then (record devices { serial_out = devices.serial_out ++ text }, 0 ∷ [])
      else (devices, 3 ∷ [])

  unfoldable pub operate : Devices → Scheduler → Message → Devices × List ℕ
  operate devices sched msg =
      let op = byte_at msg.payload 0 in
      let dev_id = byte_at msg.payload 1 in
      if not (dev_id == 0) && not (dev_id == 1)
      then (devices, 3 ∷ [])
      else if op == 0
      then (if dev_check_cap sched msg.sender dev_id false
          then read_device devices dev_id
          else (devices, 1 ∷ []))
      else if op == 1
      then (if dev_check_cap sched msg.sender dev_id true
          then write_device devices msg dev_id
          else (devices, 1 ∷ []))
      else (devices, 3 ∷ [])

  -- One request: the devices and the reply.
  unfoldable pub handle : Devices → Scheduler → Message → Devices × List ℕ
  handle devices sched msg = elim msg.tag [
    | dev_op ↦ if ltb msg.len 2 then (devices, 3 ∷ []) else operate devices sched msg
    | _ ↦ (devices, 3 ∷ [])
  ]

  -- A round of the loop, from a received message on, and the end of the reply's send.
  unfoldable pub serve :
      List (Kernel → Kernel)
      → Devices
      → Kernel
      → Message
      → Devices × Option (Result (Unit {0}) × Kernel)
  serve envs devices k msg =
      let (devices', reply) = handle devices k.sched msg in
      (devices', reply_typed envs k 85 85000 msg.sender dev_reply reply)
