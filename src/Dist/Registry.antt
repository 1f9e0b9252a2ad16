-- ===== src/Dist/Registry.antt =====
-- The registry and the checkpoints of a node as finite maps.
use runix_os.Prelude.{
  ℕ, suc, ◌≡◌, ◌≢◌, ◌⊎◌, inl, inr, refl, sym, ap, arith, true, false, Bool-cases, none, some,
  Option-cases, [], ◌∷◌, ◌==◌, first_free,
}
use runix_os.Dist.{ServiceId, Location, Entries, lookup, replace_entry, take_free, set_location}

-- A name that is not there gets the first free entry.
pub lookup-take_free :
    {A : Type 0} (es : Entries A) (svc i : ℕ) (a : A)
    → lookup es svc ≡ none
    → first_free es ≡ some i
    → lookup (take_free es svc a) svc ≡ some a
unfolding lookup take_free
lookup-take_free [] svc i a h f = absurd (cc f)
lookup-take_free (none ∷ es) svc i a h f = let e : (svc == svc) ≡ true = ground arith in simp e
lookup-take_free (some (s, b) ∷ es) svc i a h f = elim (Bool-cases (s == svc)) [
  | inl e ↦ absurd (cc (simp e at h))
  | inr e ↦ elim (Option-cases (first_free es)) [
    | inl g ↦ absurd (cc (simp g at f))
    | inr (j, g) ↦ simp (e, lookup-take_free es svc j a (simp e at h) g)
  ]
]

-- A name that is there keeps its first entry.
pub lookup-take_free_stale :
    {A : Type 0} (es : Entries A) (svc : ℕ) (old a : A)
    → lookup es svc ≡ some old
    → lookup (take_free es svc a) svc ≡ some old
      ⊎ ((i : ℕ) × (first_free es ≡ some i) × (lookup (take_free es svc a) svc ≡ some a))
unfolding lookup take_free
lookup-take_free_stale [] svc old a h = absurd (cc h)
lookup-take_free_stale (none ∷ es) svc old a h =
    let e : (svc == svc) ≡ true = ground arith in inr (0, refl, simp e)
lookup-take_free_stale (some (s, b) ∷ es) svc old a h = elim (Bool-cases (s == svc)) [
  | inl e ↦ inl (simp e (simp e at h))
  | inr e ↦ elim (lookup-take_free_stale es svc old a (simp e at h)) [
    | inl g ↦ inl (simp (e, g))
    | inr (i, f, g) ↦ inr (suc i, simp f, simp (e, g))
  ]
]

-- With no entry free, the pair is lost.
pub take_free_full :
    {A : Type 0} (es : Entries A) (svc : ℕ) (a : A) → first_free es ≡ none → take_free es svc a ≡ es
unfolding take_free
take_free_full [] svc a f = refl
take_free_full (none ∷ es) svc a f = absurd (cc f)
take_free_full (some e ∷ es) svc a f = elim (Option-cases (first_free es)) [
  | inl g ↦ ap (◌∷◌ (some e)) (take_free_full es svc a g)
  | inr (i, g) ↦ absurd (cc (simp g at f))
]

pub lookup-take_free_ne :
    {A : Type 0} (es : Entries A) (svc other : ℕ) (a : A)
    → other ≢ svc
    → lookup (take_free es svc a) other ≡ lookup es other
unfolding lookup take_free
lookup-take_free_ne [] svc other a ne = refl
lookup-take_free_ne (none ∷ es) svc other a ne =
    let e : (svc == other) ≡ false = ground (arith, ne) in simp e
lookup-take_free_ne (some (s, b) ∷ es) svc other a ne = elim (Bool-cases (s == other)) [
  | inl e ↦ simp e
  | inr e ↦ simp (e, lookup-take_free_ne es svc other a ne)
]

replace_entry-none :
    (es : Entries Location) (svc : ℕ) (loc : Location)
    → replace_entry es svc loc ≡ none
    → lookup es svc ≡ none
unfolding replace_entry lookup
replace_entry-none [] svc loc h = refl
replace_entry-none (none ∷ es) svc loc h = elim (Option-cases (replace_entry es svc loc)) [
  | inl e ↦ replace_entry-none es svc loc e
  | inr (es', e) ↦ absurd (cc (simp e at h))
]
replace_entry-none (some (s, l) ∷ es) svc loc h = elim (Bool-cases (s == svc)) [
  | inl e ↦ absurd (cc (simp e at h))
  | inr e ↦ elim (Option-cases (replace_entry es svc loc)) [
    | inl f ↦ simp (e, replace_entry-none es svc loc f)
    | inr (es', f) ↦ absurd (cc (simp (e, f) at h))
  ]
]

-- An entry that is written over is found, and no other name sees it.
replace_entry-some :
    (es es' : Entries Location) (svc : ℕ) (loc : Location)
    → replace_entry es svc loc ≡ some es'
    → (lookup es' svc ≡ some loc) × ((other : ℕ) → other ≢ svc → lookup es' other ≡ lookup es other)
unfolding replace_entry lookup
replace_entry-some [] es' svc loc h = absurd (cc h)
replace_entry-some (none ∷ es) es' svc loc h = elim (Option-cases (replace_entry es svc loc)) [
  | inl e ↦ absurd (cc (simp e at h))
  | inr (rest, e) ↦
      let q : none ∷ rest ≡ es' = cc (simp e at h) in
      let (a, b) = replace_entry-some es rest svc loc e in simp (sym q) (a, b)
]
replace_entry-some (some (s, l) ∷ es) es' svc loc h = elim (Bool-cases (s == svc)) [
  | inl e ↦
      let q : some (s, loc) ∷ es ≡ es' = cc (simp e at h) in
      simp (sym q)
        (simp e, λ other ne. let f : (s == other) ≡ false = ground (arith, e, ne) in simp f)
  | inr e ↦ elim (Option-cases (replace_entry es svc loc)) [
    | inl f ↦ absurd (cc (simp (e, f) at h))
    | inr (rest, f) ↦
        let q : some (s, l) ∷ rest ≡ es' = cc (simp (e, f) at h) in
        let (a, b) = replace_entry-some es rest svc loc f in
        simp (sym q) (
          simp (e, a),
          λ other ne. elim (Bool-cases (s == other)) [
            | inl g ↦ simp g
            | inr g ↦ simp (g, b other ne)
          ],
        )
  ]
]

-- A route that is set is what a later lookup of the service gives, where the service is registered already
-- or an entry is free; and the routes of all other services stay.
pub resolve-set_location :
    (es : Entries Location) (svc : ServiceId) (loc : Location)
    → ((l : Location) × (lookup es svc ≡ some l)) ⊎ ((i : ℕ) × (first_free es ≡ some i))
    → (lookup (set_location es svc loc) svc ≡ some loc)
      × ((other : ServiceId)
          → other ≢ svc
          → lookup (set_location es svc loc) other ≡ lookup es other)
unfolding set_location
resolve-set_location es svc loc room = elim (Option-cases (replace_entry es svc loc)) [
  | inr (es', e) ↦ simp (set_location, e) (replace_entry-some es es' svc loc e)
  | inl e ↦
      let absent = replace_entry-none es svc loc e in
      elim room [
        | inl (l, h) ↦ absurd (cc (absent, h))
        | inr (i, f) ↦
            simp (set_location, e)
              (
                lookup-take_free es svc i loc absent f,
                λ other ne. lookup-take_free_ne es svc other loc ne,
              )
      ]
]
