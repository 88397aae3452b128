-- ===== src/Pool/Weights.antt =====
-- The entries in use, each with a weight of its pointer: with the weight 1 their number, and with
-- the indicator of a pointer whether that is handed out.
use ttracker.Base.{
  ℕ, zero, suc, ◌+◌, ◌≤◌, ◌<◌, ◌≡◌, ◌≢◌, inl, inr, refl, sym, ap, ◌∙◌, some, List, [], ◌∷◌, All,
  arith, ◌==◌, if◌then◌else◌, Bool-cases,
}
use ttracker.Pool.{free, inuse, is_free, Entry, insert_fresh, status_of, in_use, AreDistinct}
use ttracker.Pool.Entries.{Takes, here, later, Gives, Status-cases}

abbrev pub indicator : ℕ → ℕ → ℕ
indicator c x = if c == x then 1 else 0

module _ {ℓ} {A : Type ℓ} where
  abbrev pub weigh : (ℕ → ℕ) → List (Entry A) → ℕ
  weigh f [] = 0
  weigh f (e ∷ es) = (if is_free e.status then 0 else f e.ptr) + weigh f es

  pub weigh-ones : (es : List (Entry A)) → weigh (λ x. 1) es ≡ in_use es
  weigh-ones [] = refl
  weigh-ones (e ∷ es) = omega (arith, weigh-ones es)

  pub weigh-Takes :
      {es es' : List (Entry A)} {p : ℕ} (f : ℕ → ℕ)
      → Takes es p es'
      → weigh f es' ≡ weigh f es + f p
  weigh-Takes f (here e es s) = rw (ap is_free s) (omega arith)
  weigh-Takes f (later e s t) = omega (arith, weigh-Takes f t)

  pub weigh-Gives :
      {reset : A → A} {p : ℕ} {es es' : List (Entry A)} (f : ℕ → ℕ)
      → Gives reset p es es'
      → weigh f es' + f p ≡ weigh f es
  weigh-Gives f (Gives.here e es q s) = rw (ap is_free s) (omega (arith, ap f q))
  weigh-Gives f (Gives.later e q t) = omega (arith, weigh-Gives f t)

  pub weigh-insert_fresh :
      (f : ℕ → ℕ) (make : ℕ → A) (next n : ℕ) (es : List (Entry A))
      → weigh f (insert_fresh make next n es) ≡ weigh f es
  unfolding insert_fresh
  weigh-insert_fresh f make next zero es = refl
  weigh-insert_fresh f make next (suc n) es = omega (
    arith,
    weigh-insert_fresh f make (suc next) n
        (record { ptr = next; item = make next; status = free } ∷ es),
  )

  weigh-absent :
      (c : ℕ) (es : List (Entry A)) → All (λ e. e.ptr ≢ c) es → weigh (indicator c) es ≡ 0
  weigh-absent c [] a = refl
  weigh-absent c (e ∷ es) a = ground (arith, weigh-absent c es a.1, a.0)

  -- Among entries with distinct pointers a pointer has weight 1 at most, and has it only if it is
  -- handed out.
  pub weigh-indicator :
      (c : ℕ) (es : List (Entry A))
      → AreDistinct es
      → (weigh (indicator c) es ≤ 1) × (0 < weigh (indicator c) es → status_of c es ≡ some inuse)
  weigh-indicator c [] d = (omega arith, λ h. absurd (omega (arith, h)))
  weigh-indicator c (e ∷ es) d = elim (Bool-cases (e.ptr == c)) [
    | inl q ↦
        let p : e.ptr ≡ c = ground (arith, q) in
        let rest = ap (λ c. weigh (indicator c) es) (sym p) ∙ weigh-absent e.ptr es d.0 in
        elim (Status-cases e.status) [
          | inl s ↦ rw (ap is_free s, q) (omega (arith, rest), λ h. absurd (omega (arith, rest, h)))
          | inr s ↦
              let one : indicator c e.ptr ≡ 1 = ground (arith, p) in
              rw (ap is_free s, q, one) (omega (arith, rest), λ h. ap (λ s. some s) s)
        ]
    | inr q ↦
        let none_here : (if is_free e.status then 0 else indicator c e.ptr) ≡ 0 =
          ground (arith, q) in
        let (l, i) = weigh-indicator c es d.1 in
        (omega (arith, none_here, l), rw q (λ h. i (omega (arith, none_here, h))))
  ]
