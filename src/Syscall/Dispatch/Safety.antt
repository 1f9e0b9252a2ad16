-- ===== src/Syscall/Dispatch/Safety.antt =====
-- What a system call may do to the caller's memory and to the console.
use runix_os.Prelude.{
  ℕ, zero, suc, ◌+◌, ◌≤◌, ◌<◌, ◌≡◌, ◌≢◌, inl, inr, refl, arith, true, Bool, Option, none, some,
  List, [], ◌∷◌, Bool-cases, length, take, min, ◌==◌, if◌then◌else◌,
}
use runix_os.Message.{Message}
use runix_os.Memory.{page_ok, page_of}
use runix_os.Memory.Range.{validate_user_range_pages}
use runix_os.Kernel.{Kernel}
use runix_os.Ipc.{
  Result, ok, err, sys_send, sys_send_typed, sys_send_async, sys_receive_typed, sys_receive_async,
}
use runix_os.Syscall.{
  failure, current_has_serial_cap, dispatch_cap_revoke, dispatch_cap_grant, dispatch_spawn_task,
}
use runix_os.Syscall.Dispatch.{
  World, SyscallFrame, KernelRequest, debug, yield, send, receive, serial_write, cap_grant,
  send_typed, cap_revoke, send_async, receive_async, spawn_task, unknown, Reply, range_ok, copy_out,
  serve, parse_request, syscall_dispatch, caller_of, answer, async_code, receive_code, answered,
  resumed,
}

-- A reply copies to user-writeable pages alone, and prints only for a holder of the console.
abbrev pub IsSafe : World → Kernel → Reply → Type 0
IsSafe w k r =
    ((ptr : ℕ) (bytes : List ℕ)
      → r.copied ≡ some (ptr, bytes)
      → (a : ℕ) → ptr ≤ a
      → a < ptr + length bytes
      → page_ok w.space true (page_of a) ≡ true)
    × (r.printed ≢ [] → (cap_idx : ℕ) × (current_has_serial_cap k.sched cap_idx ≡ true))

-- A reply that neither copies nor prints.
abbrev IsQuiet : Reply → Type 0
IsQuiet r = (r.copied ≡ none) × (r.printed ≡ [])

quiet-IsSafe : (w : World) (k : Kernel) (r : Reply) → IsQuiet r → IsSafe w k r
quiet-IsSafe w k r q = (λ ptr bytes e a lo hi. absurd (ground (arith, q.0)), λ ne. absurd (ne q.1))

range_ok_page :
    (w : World) (ptr len : ℕ)
    → range_ok w ptr len true ≡ true
    → (a : ℕ) → ptr ≤ a
    → a < ptr + len
    → page_ok w.space true (page_of a) ≡ true
unfolding range_ok
range_ok_page w ptr len h a lo hi = elim (validate_user_range_pages w.space ptr len true) [
  | inl (e, inl z) ↦ absurd (omega arith)
  | inl (e, inr (fits, all)) ↦ all a lo hi
  | inr (e, ne, bad) ↦ absurd (ground arith)
]

length-take_le : (n : ℕ) (xs : List ℕ) → length (take n xs) ≤ n
length-take_le zero xs = omega arith
length-take_le (suc n) [] = omega arith
length-take_le (suc n) (x ∷ xs) = omega (arith, length-take_le n xs)

copy_out-IsSafe :
    (w : World) (buf cap : ℕ) (msg : Message) (k k' : Kernel)
    → IsSafe w k (copy_out w buf cap msg k')
unfolding copy_out
copy_out-IsSafe w buf room msg k k' =
    let n : ℕ = min msg.len room in
    elim (Bool-cases (range_ok w buf n true)) [
      | inr h ↦ simp (copy_out, h) (quiet-IsSafe w k (answer failure k') (refl, refl))
      | inl h ↦
          simp (copy_out, h)
            (
              λ ptr bytes e a lo hi.
                  let at : buf ≡ ptr = ground arith in
                  let is : take n msg.payload ≡ bytes = ground arith in
                  let few : length bytes ≤ n = ground (arith, length-take_le n msg.payload) in
                  range_ok_page w buf n h a (omega arith) (omega arith),
              λ ne. absurd (ne refl),
            )
    ]

module _ (w : World) (k : Kernel) (r : Reply) where
  reply-IsSafe : (r' : Reply) → IsSafe w k r' → some r' ≡ some r → IsSafe w k r
  reply-IsSafe r' s e = let p : r' ≡ r = ground arith in rw (← p) s

  answer-IsSafe : (rax : ℕ) (k' : Kernel) → some (answer rax k') ≡ some r → IsSafe w k r
  answer-IsSafe rax k' e =
      reply-IsSafe (answer rax k') (quiet-IsSafe w k (answer rax k') (refl, refl)) e

  answered-IsSafe : (o : Option (ℕ × Kernel)) → answered o ≡ some r → IsSafe w k r
  answered-IsSafe none e = cc
  answered-IsSafe (some (rax, k')) e = answer-IsSafe rax k' e

  resumed-IsSafe : (envs : List (Kernel → Kernel)) → resumed envs k ≡ some r → IsSafe w k r
  resumed-IsSafe [] e = cc
  resumed-IsSafe (env ∷ envs) e = answer-IsSafe 0 _ e

  serve-IsSafe : (req : KernelRequest) → serve w k req ≡ some r → IsSafe w k r
  unfolding serve
  serve-IsSafe debug e = answer-IsSafe 0 k e
  serve-IsSafe yield e = resumed-IsSafe w.envs e
  serve-IsSafe (send i payload) e = go (sys_send w.envs k i payload) e
    where
      go :
          (o : Option (Bool × Kernel))
          → (elim o [
            | none ↦ none
            | some (sent, k') ↦ some (answer (if sent then 0 else failure) k')
          ])
            ≡ some r
          → IsSafe w k r
      go none e = cc
      go (some (sent, k')) e = answer-IsSafe _ k' e
  serve-IsSafe (receive buf room) e = go (sys_receive_typed w.envs k) e
    where
      go :
          (o : Option (Result Message × Kernel))
          → (elim o [
            | none ↦ none
            | some (ok msg, k') ↦ some (copy_out w buf room msg k')
            | some (err x, k') ↦ some (answer failure k')
          ])
            ≡ some r
          → IsSafe w k r
      go none e = cc
      go (some (ok msg, k')) e =
          reply-IsSafe (copy_out w buf room msg k') (copy_out-IsSafe w buf room msg k k') e
      go (some (err x, k')) e = answer-IsSafe failure k' e
  serve-IsSafe (serial_write i bytes) e = elim (Bool-cases (current_has_serial_cap k.sched i)) [
    | inr h ↦ answer-IsSafe failure k (ground arith)
    | inl h ↦
        let p : record (answer 0 k) { printed = if w.is_utf8 bytes then bytes else [] } ≡ r =
          ground arith in
        rw (← p) (λ ptr bytes e a lo hi. absurd (ground arith), λ ne. (i, h))
  ]
  serve-IsSafe (cap_grant i target rights) e =
      answered-IsSafe (some (dispatch_cap_grant k (caller_of k) i target rights)) e
  serve-IsSafe (send_typed i tag version payload) e =
      go (sys_send_typed w.envs k i tag version payload) e
    where
      go :
          (o : Option (Result (Unit {0}) × Kernel))
          → (elim o [
            | none ↦ none
            | some (ok u, k') ↦ some (answer 0 k')
            | some (err x, k') ↦ some (answer failure k')
          ])
            ≡ some r
          → IsSafe w k r
      go none e = cc
      go (some (ok u, k')) e = answer-IsSafe 0 k' e
      go (some (err x, k')) e = answer-IsSafe failure k' e
  serve-IsSafe (cap_revoke target i) e =
      answered-IsSafe (dispatch_cap_revoke k (caller_of k) target i) e
  serve-IsSafe (send_async i tag version payload) e =
      go (sys_send_async k i tag version payload).0 (sys_send_async k i tag version payload).1 e
    where
      go :
          (res : Result (Unit {0})) (k' : Kernel)
          → (elim res [ ok u ↦ some (answer 0 k') | err x ↦ some (answer (async_code x) k') ])
            ≡ some r
          → IsSafe w k r
      go (ok u) k' e = answer-IsSafe 0 k' e
      go (err x) k' e = answer-IsSafe (async_code x) k' e
  serve-IsSafe (receive_async buf room) e = go (sys_receive_async k).0 (sys_receive_async k).1 e
    where
      go :
          (res : Result Message) (k' : Kernel)
          → (elim res [
            | ok msg ↦ some (copy_out w buf room msg k')
            | err x ↦ some (answer (receive_code x) k')
          ])
            ≡ some r
          → IsSafe w k r
      go (ok msg) k' e =
          reply-IsSafe (copy_out w buf room msg k') (copy_out-IsSafe w buf room msg k k') e
      go (err x) k' e = answer-IsSafe (receive_code x) k' e
  serve-IsSafe (spawn_task b) e = elim (Bool-cases (caller_of k == 1)) [
    | inl h ↦ answered-IsSafe (some (dispatch_spawn_task w.place w.load k b)) (simp h at e)
    | inr h ↦ answer-IsSafe failure k (simp h at e)
  ]
  serve-IsSafe (unknown n) e = answer-IsSafe failure k e

-- Whatever the registers hold, a system call that returns has copied bytes to the caller only where every
-- byte lies on a present page that is user-accessible and writeable at all four levels, and has
-- printed only if the calling task held a capability to the console.
pub syscall_dispatch-IsSafe :
    (w : World) (k : Kernel) (f : SyscallFrame) (r : Reply)
    → syscall_dispatch w k f ≡ some r
    → IsSafe w k r
unfolding syscall_dispatch
syscall_dispatch-IsSafe w k f r e = serve-IsSafe w k r (parse_request w f) e
