-- ===== src/Service/Authority.antt =====
-- What a passed check of a service says: a capability stands in the sender's table.
use runix_os.Prelude.{
  ℕ, zero, suc, ◌≡◌, inl, inr, refl, arith, Bool, true, none, some, [], ◌∷◌, slot_at, Bool-cases,
  Option-cases,
}
use runix_os.Capability.{TaskId, Capability, CapTable}
use runix_os.Task.{Task, Scheduler, get_task}
use runix_os.Service.{some_cap, sender_holds}

-- The sender holds a capability that passes the test, in some slot.
pub record Holds (sched : Scheduler) (sender : TaskId) (test : Capability → Bool) : Type 0 where
  pub task : Task
  pub slot : ℕ
  pub cap : Capability
  pub found : get_task sched sender ≡ some task
  pub held : slot_at task.cap_table slot ≡ some cap
  pub passes : test cap ≡ true

some_cap-slot :
    (test : Capability → Bool) (slots : CapTable)
    → some_cap test slots ≡ true
    → (s : ℕ) × (cap : Capability) × (slot_at slots s ≡ some cap) × (test cap ≡ true)
unfolding some_cap
some_cap-slot test [] h = cc
some_cap-slot test (none ∷ slots) h =
    let (s, cap, at, p) = some_cap-slot test slots h in (suc s, cap, at, p)
some_cap-slot test (some c ∷ slots) h = elim (Bool-cases (test c)) [
  | inl e ↦ (zero, c, refl, e)
  | inr e ↦ let (s, cap, at, p) = some_cap-slot test slots (ground arith) in (suc s, cap, at, p)
]

slot-some_cap :
    (test : Capability → Bool) (slots : CapTable) (s : ℕ) (cap : Capability)
    → slot_at slots s ≡ some cap
    → test cap ≡ true
    → some_cap test slots ≡ true
unfolding some_cap
slot-some_cap test [] s cap at p = cc
slot-some_cap test (none ∷ slots) zero cap at p = cc
slot-some_cap test (none ∷ slots) (suc s) cap at p = slot-some_cap test slots s cap at p
slot-some_cap test (some c ∷ slots) zero cap at p = ground arith
slot-some_cap test (some c ∷ slots) (suc s) cap at p =
    ground (arith, slot-some_cap test slots s cap at p)

pub sender_holds-Holds :
    (sched : Scheduler) (sender : TaskId) (test : Capability → Bool)
    → sender_holds sched sender test ≡ true
    → Holds sched sender test
unfolding sender_holds
sender_holds-Holds sched sender test h = elim (Option-cases (get_task sched sender)) [
  | inl e ↦ absurd (ground arith)
  | inr (t, e) ↦
      let (s, cap, at, p) = some_cap-slot test t.cap_table (ground arith) in
      record { task = t; slot = s; cap = cap; found = e; held = at; passes = p }
]

pub Holds-sender_holds :
    (sched : Scheduler) (sender : TaskId) (test : Capability → Bool)
    → Holds sched sender test
    → sender_holds sched sender test ≡ true
unfolding sender_holds
Holds-sender_holds sched sender test h =
    rw (h.found, sender_holds) (slot-some_cap test h.task.cap_table h.slot h.cap h.held h.passes)
