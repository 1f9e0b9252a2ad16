-- ===== src/Arch/Events.antt =====
-- The trace of kernel/shell/mod.rs, and what kernel/arch_sim/mod.rs makes of its events. An event's
-- message is the list of its bytes.
use runix_os.Prelude.{
  ℕ, ◌+◌, ◌*◌, ◌/◌, ◌%◌, ◌<◌, ◌≤◌, ◌≡◌, arith, Bool, ◌||◌, List, [], ◌∷◌, if◌then◌else◌, eq_bytes,
  set, add_word, word_mod, bit_xor,
}
use runix_os.Arch.Pipeline.{InstrKind, alu, load, store, branch, SimInstr}

pub record TraceEvent : Type 0 where
  pub tick : ℕ
  pub msg : List ℕ
  pub param1 : ℕ
  pub param2 : ℕ

-- `TRACING_ACTIVE`, `NEXT_IDX` and `TRACE_BUFFER`.
pub record Trace : Type 0 where
  pub active : Bool
  pub next_idx : ℕ
  pub buffer : List TraceEvent

unfoldable pub log_trace : Trace → TraceEvent → Trace
log_trace trace event =
    if trace.active
    then (record trace {
      next_idx = add_word trace.next_idx 1;
      buffer = set trace.buffer (trace.next_idx % 128) event;
    })
    else trace

-- The loop that adds the bytes.
unfoldable pub sum_bytes : List ℕ → ℕ → ℕ
sum_bytes [] h = h
sum_bytes (b ∷ bytes) h = sum_bytes bytes (add_word h b)

unfoldable pub hash_event_to_addr : TraceEvent → ℕ
hash_event_to_addr event =
    let h = add_word (add_word (sum_bytes event.msg 0) event.param1) event.param2 in h % 12 * 64

-- `h ^= x; h = h.wrapping_mul(0x100000001b3)`
unfoldable pub hash_step : ℕ → ℕ → ℕ
hash_step h x = bit_xor h x * 0x100000001b3 % word_mod

unfoldable pub hash_bytes : List ℕ → ℕ → ℕ
hash_bytes [] h = h
hash_bytes (b ∷ bytes) h = hash_bytes bytes (hash_step h b)

abbrev sched_switch_yield : List ℕ
sched_switch_yield =
    115 ∷ 99 ∷ 104 ∷ 101 ∷ 100 ∷ 95 ∷ 115 ∷ 119 ∷ 105 ∷ 116 ∷ 99 ∷ 104 ∷ 95 ∷ 121 ∷ 105 ∷ 101 ∷ 108
    ∷ 100 ∷ []

abbrev sched_switch_preempt : List ℕ
sched_switch_preempt =
    115 ∷ 99 ∷ 104 ∷ 101 ∷ 100 ∷ 95 ∷ 115 ∷ 119 ∷ 105 ∷ 116 ∷ 99 ∷ 104 ∷ 95 ∷ 112 ∷ 114 ∷ 101 ∷ 101
    ∷ 109 ∷ 112 ∷ 116 ∷ []

abbrev sched_switch_term : List ℕ
sched_switch_term =
    115 ∷ 99 ∷ 104 ∷ 101 ∷ 100 ∷ 95 ∷ 115 ∷ 119 ∷ 105 ∷ 116 ∷ 99 ∷ 104 ∷ 95 ∷ 116 ∷ 101 ∷ 114 ∷ 109
    ∷ []

abbrev ipc_send : List ℕ
ipc_send = 105 ∷ 112 ∷ 99 ∷ 95 ∷ 115 ∷ 101 ∷ 110 ∷ 100 ∷ []

abbrev ipc_send_async : List ℕ
ipc_send_async = 105 ∷ 112 ∷ 99 ∷ 95 ∷ 115 ∷ 101 ∷ 110 ∷ 100 ∷ 95 ∷ 97 ∷ 115 ∷ 121 ∷ 110 ∷ 99 ∷ []

abbrev ipc_receive : List ℕ
ipc_receive = 105 ∷ 112 ∷ 99 ∷ 95 ∷ 114 ∷ 101 ∷ 99 ∷ 101 ∷ 105 ∷ 118 ∷ 101 ∷ []

abbrev ipc_receive_async : List ℕ
ipc_receive_async =
    105 ∷ 112 ∷ 99 ∷ 95 ∷ 114 ∷ 101 ∷ 99 ∷ 101 ∷ 105 ∷ 118 ∷ 101 ∷ 95 ∷ 97 ∷ 115 ∷ 121 ∷ 110 ∷ 99
    ∷ []

unfoldable pub kind_of : List ℕ → InstrKind
kind_of msg =
    if eq_bytes msg sched_switch_yield
      || (eq_bytes msg sched_switch_preempt || eq_bytes msg sched_switch_term)
    then branch
    else if eq_bytes msg ipc_send || eq_bytes msg ipc_send_async
    then store
    else if eq_bytes msg ipc_receive || eq_bytes msg ipc_receive_async
    then load
    else alu

unfoldable pub event_to_instr : TraceEvent → SimInstr
event_to_instr event =
    let h =
      hash_step (hash_step (hash_bytes event.msg 0xcbf29ce484222325) event.param1) event.param2 in
    record { kind = kind_of event.msg; rd = h % 8 + 1; rs1 = h / 8 % 8 + 1; rs2 = h / 64 % 8 + 1 }

-- Every event has an address at the start of one of twelve lines of 64 bytes.
pub hash_event_to_addr-bounds :
    (event : TraceEvent)
    → (hash_event_to_addr event % 64 ≡ 0) × (hash_event_to_addr event < 12 * 64)
unfolding hash_event_to_addr
hash_event_to_addr-bounds event =
    let h = add_word (add_word (sum_bytes event.msg 0) event.param1) event.param2 in
    (omega arith, omega arith)

-- Every event's instruction uses the registers 1 to 8, so that register 0, which never makes a hazard, does
-- not occur.
pub event_to_instr-bounds :
    (event : TraceEvent)
    → let i = event_to_instr event in
      ((1 ≤ i.rd) × (i.rd ≤ 8)) × ((1 ≤ i.rs1) × (i.rs1 ≤ 8)) × ((1 ≤ i.rs2) × (i.rs2 ≤ 8))
unfolding event_to_instr
event_to_instr-bounds event =
    let h =
      hash_step (hash_step (hash_bytes event.msg 0xcbf29ce484222325) event.param1) event.param2 in
    ((omega arith, omega arith), (omega arith, omega arith), (omega arith, omega arith))
