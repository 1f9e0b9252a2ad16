-- ===== src/Service/Log/Layout.antt =====
-- The bytes of an entry, read back: what a reply of the log service shows, and the text of an entry that
-- a request publishes.
use runix_os.Prelude.{
  ℕ, zero, suc, ◌+◌, ◌-◌, ◌*◌, ◌%◌, ◌^◌, ◌≡◌, refl, ap, ◌∙◌, arith, min, List, [], ◌∷◌, ◌++◌,
  length, drop, byte_at, slice_of, replicate,
}
use runix_os.Message.{Message}
use runix_os.Service.Log.{LogEntry, entry_of, entry_bytes, ne_bytes}

-- The number that bytes stand for, the lowest first.
unfoldable pub le_value : List ℕ → ℕ
le_value [] = 0
le_value (b ∷ bytes) = b + 256 * le_value bytes

-- A reply that shows an entry: a code, three words, the kind between them, and the text at the end.
pub record Shows (entry : LogEntry) (reply : List ℕ) : Type 0 where
  pub code : byte_at reply 0 ≡ 0
  pub tick : le_value (slice_of reply 1 8) ≡ entry.tick % 2 ^ 64
  pub producer : le_value (slice_of reply 9 8) ≡ entry.producer % 2 ^ 64
  pub kind : byte_at reply 17 ≡ entry.kind
  pub len : le_value (slice_of reply 18 8) ≡ entry.len % 2 ^ 64
  pub text : drop 26 reply ≡ entry.msg

-- An entry for a message: the tick and the sender as the service knows them, the kind and the text as
-- the message says, with zeros up to 64 bytes.
pub record IsEntry (tick : ℕ) (msg : Message) (entry : LogEntry) : Type 0 where
  pub tick_is : entry.tick ≡ tick
  pub producer_is : entry.producer ≡ msg.sender
  pub kind_is : entry.kind ≡ byte_at msg.payload 0
  pub len_is : entry.len ≡ min (msg.len - 1) 64
  pub text_is :
      let text = slice_of msg.payload 1 (min (msg.len - 1) 64) in
      entry.msg ≡ text ++ replicate (64 - length text) 0

pub le_value-ne_bytes : (x : ℕ) → le_value (ne_bytes 8 x) ≡ x % 2 ^ 64
unfolding le_value ne_bytes
le_value-ne_bytes x = omega arith

pub entry_bytes-Shows : (entry : LogEntry) → Shows entry (0 ∷ entry_bytes entry)
unfolding ne_bytes
entry_bytes-Shows entry = record {
  code = refl;
  tick = le_value-ne_bytes entry.tick;
  producer = le_value-ne_bytes entry.producer;
  kind = refl;
  len = le_value-ne_bytes entry.len;
  text = refl;
}

drop-zeros : (k n : ℕ) → drop {A = ℕ} k (replicate n 0) ≡ replicate (n - k) 0
drop-zeros zero n = let e : n ≡ n - 0 = omega arith in ap (λ m. replicate m 0) e
drop-zeros (suc k) zero = let e : 0 ≡ 0 - suc k = omega arith in ap (λ m. replicate {A = ℕ} m 0) e
drop-zeros (suc k) (suc n) =
    let e : n - k ≡ suc n - suc k = omega arith in drop-zeros k n ∙ ap (λ m. replicate m 0) e

pub entry_of-IsEntry : (tick : ℕ) (msg : Message) → IsEntry tick msg (entry_of tick msg)
entry_of-IsEntry tick msg =
    let text = slice_of msg.payload 1 (min (msg.len - 1) 64) in
    record {
      tick_is = refl;
      producer_is = refl;
      kind_is = refl;
      len_is = refl;
      text_is = ap (λ rest. text ++ rest) (drop-zeros (length text) 64);
    }
