-- ===== src/Capability/Table.antt =====
-- The operations of `CapTable`: what each writes, and what it leaves alone.
use runix_os.Prelude.{
  ℕ, ◌<◌, ◌≡◌, ◌≢◌, ◌⊎◌, inl, inr, refl, true, false, none, some, arith, length, add_word, slot_at,
  get_elem?, set, length-set, first_free, first_free_lt, first_free_empty, first_free_before,
  first_free_full, Option-cases, Bool-cases, Option, List, [], ◌∷◌, zero, suc, ap, replicate,
}
use runix_os.Capability.{
  Capability, CapTable, refused, removed, max_caps, new, insert, get, remove, kernel_revoke,
}

pub slot_at-set_self {ℓ} :
    {A : Type ℓ} (xs : List (Option A)) (i : ℕ) (v : Option A)
    → i < length xs
    → slot_at (set xs i v) i ≡ v
slot_at-set_self [] i v h = elim h [ ]
slot_at-set_self (x ∷ xs) zero v h = refl
slot_at-set_self (x ∷ xs) (suc i) v h = slot_at-set_self xs i v (omega arith)

pub slot_at-set_ne {ℓ} :
    {A : Type ℓ} (xs : List (Option A)) (i j : ℕ) (v : Option A)
    → i ≢ j
    → slot_at (set xs i v) j ≡ slot_at xs j
slot_at-set_ne [] i j v h = refl
slot_at-set_ne (x ∷ xs) zero zero v h = absurd (h refl)
slot_at-set_ne (x ∷ xs) zero (suc j) v h = refl
slot_at-set_ne (x ∷ xs) (suc i) zero v h = refl
slot_at-set_ne (x ∷ xs) (suc i) (suc j) v h = slot_at-set_ne xs i j v (λ e. h (ap suc e))

pub slot_at-get_elem? {ℓ} :
    {A : Type ℓ} (xs : List (Option A)) (i : ℕ) {o : Option A}
    → get_elem? xs i ≡ some o
    → slot_at xs i ≡ o
slot_at-get_elem? [] i h = cc
slot_at-get_elem? (x ∷ xs) zero h = ground arith
slot_at-get_elem? (x ∷ xs) (suc i) h = slot_at-get_elem? xs i h

pub slot_at-some_lt {ℓ} :
    {A : Type ℓ} (xs : List (Option A)) (i : ℕ) {a : A} → slot_at xs i ≡ some a → i < length xs
slot_at-some_lt [] i h = cc
slot_at-some_lt (x ∷ xs) zero h = omega arith
slot_at-some_lt (x ∷ xs) (suc i) h = omega (arith, slot_at-some_lt xs i h)

pub slot_at-replicate {ℓ} :
    {A : Type ℓ} (n i : ℕ) → slot_at (replicate {A = Option A} n none) i ≡ none
slot_at-replicate zero i = refl
slot_at-replicate (suc n) zero = refl
slot_at-replicate (suc n) (suc i) = slot_at-replicate n i

-- Every table has all its slots.
abbrev pub IsTable : CapTable → Type 0
IsTable slots = length slots ≡ max_caps

pub new-IsTable : IsTable new
unfolding new
new-IsTable = refl

pub get-new : (i : ℕ) → get new i ≡ none
unfolding get new
get-new i = ground (arith, slot_at-replicate {A = Capability} max_caps i)

pub get_lem : (slots : CapTable) (i : ℕ) → IsTable slots → get slots i ≡ slot_at slots i
unfolding get
get_lem slots i v = elim (Option-cases (slot_at slots i)) [
  | inl e ↦ ground (arith, e)
  | inr (c, e) ↦ ground (arith, e, slot_at-some_lt slots i e)
]

-- What a successful `insert` did.
pub record Inserted (counter : ℕ) (slots : CapTable) (cap : Capability) (i : ℕ) (after : CapTable)
    : Type 0 where
  pub table : IsTable after
  pub was_free : get slots i ≡ none
  pub stored : get after i ≡ some (record cap { id = counter })
  pub others : (j : ℕ) → i ≢ j → get after j ≡ get slots j
  pub first : (j : ℕ) → j < i → (c : Capability) × (get slots j ≡ some c)

-- What a failed `insert` met: no slot was free, and the table is as it was.
pub record Refused (slots after : CapTable) : Type 0 where
  pub unchanged : after ≡ slots
  pub full : (j : ℕ) → j < max_caps → (c : Capability) × (get slots j ≡ some c)

insert_some :
    (counter : ℕ) (slots : CapTable) (cap : Capability) (i : ℕ)
    → IsTable slots
    → first_free slots ≡ some i
    → Inserted counter slots cap i (set slots i (some (record cap { id = counter })))
insert_some counter slots cap i v e =
    let lt : i < length slots = first_free_lt slots i e in
    let v' : IsTable (set slots i (some (record cap { id = counter }))) =
      omega (arith, length-set slots i (some (record cap { id = counter }))) in
    record {
      table = v';
      was_free =
          ground (arith, get_lem slots i v, slot_at-get_elem? slots i (first_free_empty slots i e));
      stored =
          ground (
            arith,
            get_lem _ i v',
            slot_at-set_self slots i (some (record cap { id = counter })) lt,
          );
      others = λ j ne. ground (
        arith,
        get_lem _ j v',
        get_lem slots j v,
        slot_at-set_ne slots i j (some (record cap { id = counter })) ne,
      );
      first = λ j h.
          let (c, q) = first_free_before slots i j e h in
          (c, ground (arith, get_lem slots j v, slot_at-get_elem? slots j q));
    }

-- `insert` takes the lowest free slot and stamps the capability with the counter's identity,
-- touching no other slot, or finds all slots taken and changes nothing; either way the counter
-- moves on by one.
pub insert_lem :
    (counter : ℕ) (slots : CapTable) (cap : Capability)
    → IsTable slots
    → let (result, after, counter') = insert counter slots cap in
      (counter' ≡ add_word counter 1)
      × (((i : ℕ) × (result ≡ some i) × Inserted counter slots cap i after)
          ⊎ ((result ≡ none) × Refused slots after))
unfolding insert
insert_lem counter slots cap v = elim (Option-cases (first_free slots)) [
  | inl e ↦
      rw (e, insert)
        (
          refl,
          inr (
            refl,
            record {
              unchanged = refl;
              full = λ j h.
                  let (c, q) = first_free_full slots j e (omega arith) in
                  (c, ground (arith, get_lem slots j v, slot_at-get_elem? slots j q));
            },
          ),
        )
  | inr (i, e) ↦ rw (e, insert) (refl, inl (i, refl, insert_some counter slots cap i v e))
]

-- `kernel_revoke` returns what the slot held, empties it, sealed or not, and leaves the others.
pub kernel_revoke_lem :
    (slots : CapTable) (i : ℕ)
    → IsTable slots
    → let (held, after) = kernel_revoke slots i in
      (held ≡ get slots i)
      × (get after i ≡ none)
      × ((j : ℕ) → i ≢ j → get after j ≡ get slots j)
      × IsTable after
unfolding kernel_revoke get
kernel_revoke_lem slots i v = (
  ground arith,
  ground (arith, slot_at-set_self slots i none),
  λ j ne. ground (arith, slot_at-set_ne slots i j none ne),
  ground (arith, length-set slots i none),
)

-- A holder's `remove` never takes a sealed capability: it is refused and the table stays; any
-- other slot is emptied, and its content returned.
pub remove_lem :
    (slots : CapTable) (i : ℕ)
    → IsTable slots
    → let (answer, after) = remove slots i in
      ((c : Capability) × (get slots i ≡ some c)
        × (c.sealed ≡ true)
        × (answer ≡ refused)
        × (after ≡ slots))
      ⊎ (((c : Capability) → get slots i ≡ some c → c.sealed ≡ false)
          × (answer ≡ removed (get slots i))
          × (get after i ≡ none)
          × ((j : ℕ) → i ≢ j → get after j ≡ get slots j))
unfolding remove get
remove_lem slots i v = elim (Option-cases (get slots i)) [
  | inl e ↦
      inr (λ c q. cc, ground arith, ground (arith, cleared), λ j ne. ground (arith, clear j ne))
  | inr (c, e) ↦ elim (Bool-cases c.sealed) [
    | inl s ↦ inl (c, e, s, ground arith, ground arith)
    | inr s ↦ inr (
      λ d q. ground arith,
      ground arith,
      ground (arith, cleared),
      λ j ne. ground (arith, clear j ne),
    )
  ]
]
  where
    clear : (j : ℕ) → i ≢ j → slot_at (set slots i none) j ≡ slot_at slots j
    clear j ne = slot_at-set_ne slots i j none ne

    cleared : i < length slots → slot_at (set slots i none) i ≡ none
    cleared lt = slot_at-set_self slots i none lt
