-- ===== src/Syscall/Dispatch.antt =====
-- The trap's dispatcher: `SyscallFrame`, `parse_request` and `syscall_dispatch`.
pub mod Safety
use runix_os.Prelude.{
  ℕ, zero, suc, ◌+◌, ◌-◌, ◌/◌, ◌%◌, ◌^◌, min, Bool, true, false, not, ◌&&◌, Option, none, some,
  List, [], ◌∷◌, ◌==◌, if◌then◌else◌, leb, bit_and, take, length, word_max,
}
use runix_os.Capability.{RightsMask}
use runix_os.Message.{Message, IpcError, queue_full, no_message}
use runix_os.Memory.{Space, validate_user_range}
use runix_os.Task.Frame.{Place}
use runix_os.Kernel.{Kernel}
use runix_os.Sched.{yield_cpu}
use runix_os.Ipc.{
  Result, ok, err, sys_send, sys_send_typed, sys_send_async, sys_receive_typed, sys_receive_async,
  wait,
}
use runix_os.Syscall.{
  failure, current_has_serial_cap, dispatch_cap_grant, dispatch_cap_revoke, dispatch_spawn_task,
}

-- The registers that the dispatcher reads; the others are restored as they were.
pub record SyscallFrame : Type 0 where
  pub rax : ℕ
  pub rdx : ℕ
  pub rsi : ℕ
  pub rdi : ℕ
  pub r8 : ℕ

pub data KernelRequest : Type 0 where
  debug yield : KernelRequest
  send : ℕ → List ℕ → KernelRequest
  receive : ℕ → ℕ → KernelRequest
  serial_write : ℕ → List ℕ → KernelRequest
  cap_grant : ℕ → ℕ → RightsMask → KernelRequest
  send_typed : ℕ → ℕ → ℕ → List ℕ → KernelRequest
  cap_revoke : ℕ → ℕ → KernelRequest
  send_async : ℕ → ℕ → ℕ → List ℕ → KernelRequest
  receive_async : ℕ → ℕ → KernelRequest
  spawn_task : ℕ → KernelRequest
  unknown : ℕ → KernelRequest

-- What a call meets outside the kernel's state: the caller's memory, as page tables and as bytes;
-- the loader and the addresses fixed at link time; what is valid text; what others do in its waits.
pub record World : Type 0 where
  pub space : Space
  pub byte : ℕ → ℕ
  pub place : Place
  pub load : ℕ → ℕ
  pub is_utf8 : List ℕ → Bool
  pub envs : List (Kernel → Kernel)

-- `validate_user_range(…).is_ok()`
unfoldable pub range_ok : World → ℕ → ℕ → Bool → Bool
range_ok w ptr len writeable = elim (validate_user_range w.space ptr len writeable) [
  | some true ↦ true
  | _ ↦ false
]

-- `slice::from_raw_parts(ptr, len)`, read out
abbrev pub slice : World → ℕ → ℕ → List ℕ
slice w ptr zero = []
slice w ptr (suc len) = w.byte ptr ∷ slice w (ptr + 1) len

abbrev pub rights_of : ℕ → RightsMask
rights_of bits = record {
  read = not (bit_and bits 0x1 == 0);
  write = not (bit_and bits 0x2 == 0);
  grant = not (bit_and bits 0x4 == 0);
}

unfoldable pub parse_request : World → SyscallFrame → KernelRequest
unfolding range_ok
parse_request w f =
    let tag = f.rdx % 2 ^ 16 in
    let version = f.rdx / 2 ^ 16 % 2 ^ 16 in
    if f.rax == 0
    then debug
    else if f.rax == 1
    then yield
    else if f.rax == 2
    then (if leb f.rdx 128 && range_ok w f.rsi f.rdx false
        then send f.rdi (slice w f.rsi f.rdx)
        else unknown f.rax)
    else if f.rax == 3
    then (if range_ok w f.rsi (min f.rdx 128) true then receive f.rsi f.rdx else unknown f.rax)
    else if f.rax == 4
    then (if leb f.rdx 4096 && range_ok w f.rsi f.rdx false
        then serial_write f.rdi (slice w f.rsi f.rdx)
        else unknown f.rax)
    else if f.rax == 5
    then cap_grant f.rdi f.rsi (rights_of (f.rdx % 2 ^ 8))
    else if f.rax == 6
    then (if leb f.r8 128 && range_ok w f.rsi f.r8 false
        then send_typed f.rdi tag version (slice w f.rsi f.r8)
        else unknown f.rax)
    else if f.rax == 7
    then cap_revoke f.rdi f.rsi
    else if f.rax == 8
    then (if leb f.r8 128 && range_ok w f.rsi f.r8 false
        then send_async f.rdi tag version (slice w f.rsi f.r8)
        else unknown f.rax)
    else if f.rax == 9
    then (if range_ok w f.rsi (min f.rdx 128) true
        then receive_async f.rsi f.rdx
        else unknown f.rax)
    else if f.rax == 10
    then spawn_task f.rdi
    else unknown f.rax

-- The end of a call: `frame.rax`, the kernel, what was printed for the caller, and the bytes copied
-- to an address of its.
pub record Reply : Type 0 where
  pub rax : ℕ
  pub kernel : Kernel
  pub printed : List ℕ
  pub copied : Option (ℕ × List ℕ)

abbrev pub answer : ℕ → Kernel → Reply
answer rax k = record { rax = rax; kernel = k; printed = []; copied = none }

abbrev pub answered : Option (ℕ × Kernel) → Option Reply
answered none = none
answered (some (rax, k)) = some (answer rax k)

-- The copy of a message into the caller's buffer, which is checked again for its length.
unfoldable pub copy_out : World → ℕ → ℕ → Message → Kernel → Reply
unfolding range_ok
copy_out w buf cap msg k =
    let n = min msg.len cap in
    if range_ok w buf n true
    then (record { rax = n; kernel = k; printed = []; copied = some (buf, take n msg.payload) })
    else answer failure k

-- The codes of an asynchronous call that would have to wait.
abbrev pub async_code : IpcError → ℕ
async_code queue_full = failure - 7
async_code _ = failure

abbrev pub receive_code : IpcError → ℕ
receive_code no_message = failure - 8
receive_code _ = failure

-- The calling task's id, `usize::MAX` where there is none.
abbrev pub caller_of : Kernel → ℕ
caller_of k = elim k.sched.current_task_id [ none ↦ word_max | some id ↦ id ]

abbrev pub resumed : List (Kernel → Kernel) → Kernel → Option Reply
resumed [] k = none
resumed (env ∷ envs) k = some (answer 0 (wait env k))

unfoldable pub serve : World → Kernel → KernelRequest → Option Reply
unfolding copy_out
serve w k debug = some (answer 0 k)
serve w k yield = resumed w.envs k
serve w k (send cap_idx payload) = elim (sys_send w.envs k cap_idx payload) [
  | none ↦ none
  | some (sent, k') ↦ some (answer (if sent then 0 else failure) k')
]
serve w k (receive buf cap) = elim (sys_receive_typed w.envs k) [
  | none ↦ none
  | some (ok msg, k') ↦ some (copy_out w buf cap msg k')
  | some (err _, k') ↦ some (answer failure k')
]
serve w k (serial_write cap_idx bytes) =
    if current_has_serial_cap k.sched cap_idx
    then some (record (answer 0 k) { printed = if w.is_utf8 bytes then bytes else [] })
    else some (answer failure k)
serve w k (cap_grant src_cap_idx target rights) =
    answered (some (dispatch_cap_grant k (caller_of k) src_cap_idx target rights))
serve w k (send_typed cap_idx tag version payload) =
    elim (sys_send_typed w.envs k cap_idx tag version payload) [
      | none ↦ none
      | some (ok _, k') ↦ some (answer 0 k')
      | some (err _, k') ↦ some (answer failure k')
    ]
serve w k (cap_revoke target cap_idx) =
    answered (dispatch_cap_revoke k (caller_of k) target cap_idx)
serve w k (send_async cap_idx tag version payload) =
    let (r, k') = sys_send_async k cap_idx tag version payload in
    elim r [ ok _ ↦ some (answer 0 k') | err e ↦ some (answer (async_code e) k') ]
serve w k (receive_async buf cap) =
    let (r, k') = sys_receive_async k in
    elim r [ ok msg ↦ some (copy_out w buf cap msg k') | err e ↦ some (answer (receive_code e) k') ]
serve w k (spawn_task blob_type) =
    if caller_of k == 1
    then answered (some (dispatch_spawn_task w.place w.load k blob_type))
    else some (answer failure k)
serve w k (unknown n) = some (answer failure k)

-- `none` only for a call that waits longer than `envs` goes on, or an ended caller.
unfoldable pub syscall_dispatch : World → Kernel → SyscallFrame → Option Reply
unfolding serve parse_request
syscall_dispatch w k f = serve w k (parse_request w f)
