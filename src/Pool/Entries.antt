-- ===== src/Pool/Entries.antt =====
-- Taking an entry and giving it back, on the statuses of the pointers.
use ttracker.Base.{
  ℕ, ◌+◌, ◌≡◌, ◌≢◌, ◌⊎◌, inl, inr, refl, ap, none, some, List, [], ◌∷◌, arith, ◌==◌, length,
  Bool-cases,
}
use ttracker.Pool.{Status, free, inuse, is_free, Entry, take_free, give_back, status_of, in_use}

module _ {ℓ} {A : Type ℓ} where
  -- The entry that is taken is the first that is free.
  pub data Takes : List (Entry A) → ℕ → List (Entry A) → Type ℓ where
    here :
        (e : Entry A) (es : List (Entry A))
        → e.status ≡ free
        → Takes (e ∷ es) e.ptr (record e { status = inuse } ∷ es)
    later :
        {es es' : List (Entry A)} {p : ℕ} (e : Entry A)
        → e.status ≡ inuse
        → Takes es p es'
        → Takes (e ∷ es) p (e ∷ es')

  -- The entry that is given back is the first with the pointer.
  pub data Gives (reset : A → A) (p : ℕ) : List (Entry A) → List (Entry A) → Type ℓ where
    here :
        (e : Entry A) (es : List (Entry A))
        → e.ptr ≡ p
        → e.status ≡ inuse
        → Gives reset p (e ∷ es) (record e { item = reset e.item; status = free } ∷ es)
    later :
        {es es' : List (Entry A)} (e : Entry A)
        → e.ptr ≢ p
        → Gives reset p es es'
        → Gives reset p (e ∷ es) (e ∷ es')

pub Status-cases : (s : Status) → (s ≡ free) ⊎ (s ≡ inuse)
Status-cases free = inl refl
Status-cases inuse = inr refl

module _ {ℓ} {A : Type ℓ} where
  pub take_free-cases :
      (es : List (Entry A))
      → ((take_free es ≡ none) × (in_use es ≡ length es))
        ⊎ ((p : ℕ) × (es' : List (Entry A)) × (take_free es ≡ some (p, es')) × Takes es p es')
  unfolding take_free
  take_free-cases [] = inl (refl, refl)
  take_free-cases (e ∷ es) = elim (Status-cases e.status) [
    | inl s ↦ inr (e.ptr, record e { status = inuse } ∷ es, rw (ap is_free s), Takes.here e es s)
    | inr s ↦ elim (take_free-cases es) [
      | inl (h, n) ↦ inl (rw (ap is_free s, h), rw (ap is_free s) (omega (arith, n)))
      | inr (p, es', h, t) ↦ inr (p, e ∷ es', rw (ap is_free s, h), Takes.later e s t)
    ]
  ]

  -- Giving back succeeds exactly for a pointer whose entry is in use.
  pub give_back-Gives :
      (reset : A → A) (p : ℕ) (es : List (Entry A))
      → status_of p es ≡ some inuse
      → (es' : List (Entry A)) × (give_back reset p es ≡ some es') × Gives reset p es es'
  unfolding give_back
  give_back-Gives reset p [] h = absurd (cc)
  give_back-Gives reset p (e ∷ es) h = elim (Bool-cases (e.ptr == p)) [
    | inl q ↦
        let s : e.status ≡ inuse = ground arith in
        (
          record e { item = reset e.item; status = free } ∷ es,
          rw (q, ap is_free s),
          Gives.here e es (ground arith) s,
        )
    | inr q ↦
        let (es', g, r) = give_back-Gives reset p es (ground arith) in
        (e ∷ es', rw (q, g), Gives.later e (ground arith) r)
  ]

  pub give_back-aborts :
      (reset : A → A) (p : ℕ) (es : List (Entry A))
      → status_of p es ≢ some inuse
      → give_back reset p es ≡ none
  unfolding give_back
  give_back-aborts reset p [] h = refl
  give_back-aborts reset p (e ∷ es) h = ground (arith, give_back-aborts reset p es)

  pub count-Takes :
      {es es' : List (Entry A)} {p : ℕ}
      → Takes es p es'
      → (in_use es' ≡ in_use es + 1) × (length es' ≡ length es)
  count-Takes (here e es s) = (rw (ap is_free s) (omega arith), refl)
  count-Takes (later e s t) = let (c, l) = count-Takes t in (omega (arith, c), omega (arith, l))

  pub count-Gives :
      {reset : A → A} {p : ℕ} {es es' : List (Entry A)}
      → Gives reset p es es'
      → (in_use es' + 1 ≡ in_use es) × (length es' ≡ length es)
  count-Gives (here e es q s) = (rw (ap is_free s) (omega arith), refl)
  count-Gives (later e q t) = let (c, l) = count-Gives t in (omega (arith, c), omega (arith, l))
