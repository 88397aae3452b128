-- ===== src/Pool/Statuses.antt =====
-- What taking, giving back and growing do to the pointers and their statuses.
use ttracker.Base.{
  ℕ, zero, suc, ◌+◌, ◌<◌, ◌≤◌, ◌≡◌, ◌≢◌, refl, ap, subst, ◌∙◌, none, some, List, [], ◌∷◌, All,
  arith, ◌==◌, ==_self, if◌then◌else◌, length,
}
use ttracker.Pool.{free, inuse, Entry, insert_fresh, status_of, in_use, AreDistinct}
use ttracker.Pool.Entries.{Takes, Gives}

module _ {ℓ} {A : Type ℓ} where
  -- Neither changes which pointers there are.
  pub All-Takes {κ} :
      (P : ℕ → Type κ) {es es' : List (Entry A)} {p : ℕ}
      → Takes es p es'
      → All (λ d. P d.ptr) es
      → All (λ d. P d.ptr) es' × P p
  All-Takes P (Takes.here e es s) a = (a, a.0)
  All-Takes P (Takes.later e s t) a = let (b, q) = All-Takes P t a.1 in ((a.0, b), q)

  pub All-Gives {κ} :
      (P : ℕ → Type κ) {reset : A → A} {p : ℕ} {es es' : List (Entry A)}
      → Gives reset p es es'
      → All (λ d. P d.ptr) es
      → All (λ d. P d.ptr) es'
  All-Gives P (Gives.here e es q s) a = a
  All-Gives P (Gives.later e q t) a = (a.0, All-Gives P t a.1)

  pub AreDistinct-Takes :
      {es es' : List (Entry A)} {p : ℕ} → Takes es p es' → AreDistinct es → AreDistinct es'
  AreDistinct-Takes (Takes.here e es s) d = d
  AreDistinct-Takes (Takes.later e s t) d =
      ((All-Takes (λ q. q ≢ e.ptr) t d.0).0, AreDistinct-Takes t d.1)

  pub AreDistinct-Gives :
      {reset : A → A} {p : ℕ} {es es' : List (Entry A)}
      → Gives reset p es es'
      → AreDistinct es
      → AreDistinct es'
  AreDistinct-Gives (Gives.here e es q s) d = d
  AreDistinct-Gives (Gives.later e q t) d =
      (All-Gives (λ q. q ≢ e.ptr) t d.0, AreDistinct-Gives t d.1)

  -- A pointer that was free is handed out, and is in use afterwards; the others are as they were.
  pub status-Takes :
      {es es' : List (Entry A)} {p : ℕ}
      → Takes es p es'
      → AreDistinct es
      → (status_of p es ≡ some free)
        × ((q : ℕ) → status_of q es' ≡ (if p == q then some inuse else status_of q es))
  status-Takes (Takes.here e es s) d = (rw (==_self e.ptr) (ap (λ x. some x) s), λ q. ground arith)
  status-Takes (Takes.later {es} {es'} {p} e s t) d =
      let (f, g) = status-Takes t d.1 in
      let ne = (All-Takes (λ q. q ≢ e.ptr) t d.0).1 in
      (ground (arith, f, ne), λ q. ground (arith, g q, ne))

  pub status-Gives :
      {reset : A → A} {p : ℕ} {es es' : List (Entry A)}
      → Gives reset p es es'
      → (q : ℕ) → status_of q es' ≡ (if p == q then some free else status_of q es)
  status-Gives (Gives.here e es r s) q = ground arith
  status-Gives {reset} {p} (Gives.later {es} {es'} e r t) q = ground (arith, status-Gives t q, r)

  -- Fresh entries are free, and their pointers are those from `next` on.
  pub status-beyond :
      (next : ℕ) (es : List (Entry A)) (q : ℕ)
      → All (λ d. d.ptr < next) es
      → next ≤ q
      → status_of q es ≡ none
  status-beyond next [] q a h = refl
  status-beyond next (e ∷ es) q a h = ground (arith, status-beyond next es q a.1 h, a.0, h)

  pub count-insert_fresh :
      (make : ℕ → A) (next n : ℕ) (es : List (Entry A))
      → (in_use (insert_fresh make next n es) ≡ in_use es)
        × (length (insert_fresh make next n es) ≡ n + length es)
  unfolding insert_fresh
  count-insert_fresh make next zero es = (refl, omega arith)
  count-insert_fresh make next (suc n) es =
      let (c, l) =
        count-insert_fresh make (suc next) n
          (record { ptr = next; item = make next; status = free } ∷ es) in
      (omega (arith, c), omega (arith, l))

  All-suc :
      (next : ℕ) (es : List (Entry A)) → All (λ d. d.ptr < next) es → All (λ d. d.ptr < suc next) es
  All-suc next [] a = a
  All-suc next (e ∷ es) a = (omega (arith, a.0), All-suc next es a.1)

  All-distinct :
      (next : ℕ) (es : List (Entry A)) → All (λ d. d.ptr < next) es → All (λ d. d.ptr ≢ next) es
  All-distinct next [] a = a
  All-distinct next (e ∷ es) a = (λ q. omega (arith, a.0, q), All-distinct next es a.1)

  pub AreDistinct-insert_fresh :
      (make : ℕ → A) (next n : ℕ) (es : List (Entry A))
      → All (λ d. d.ptr < next) es
      → AreDistinct es
      → All (λ d. d.ptr < next + n) (insert_fresh make next n es)
        × AreDistinct (insert_fresh make next n es)
  unfolding insert_fresh
  AreDistinct-insert_fresh make next zero es a d =
      (subst (λ m. All (λ e. e.ptr < m) es) (omega arith) a, d)
  AreDistinct-insert_fresh make next (suc n) es a d =
      let (b, c) =
        AreDistinct-insert_fresh make (suc next) n
          (record { ptr = next; item = make next; status = free } ∷ es)
          (omega arith, All-suc next es a) (All-distinct next es a, d) in
      (
        subst
            (λ m.
              All (λ e. e.ptr < m)
                (insert_fresh make (suc next) n
                  (record { ptr = next; item = make next; status = free } ∷ es)))
            (omega arith) b,
        c,
      )

  -- The pointers that there were keep their statuses.
  pub status-insert_fresh :
      (make : ℕ → A) (next n : ℕ) (es : List (Entry A)) (q : ℕ)
      → q < next
      → status_of q (insert_fresh make next n es) ≡ status_of q es
  unfolding insert_fresh
  status-insert_fresh make next zero es q h = refl
  status-insert_fresh make next (suc n) es q h =
      status-insert_fresh make (suc next) n
        (record { ptr = next; item = make next; status = free } ∷ es) q (omega (arith, h))
      ∙ ground (arith, h)

  -- No fresh entry is in use.
  pub status-insert_fresh_inuse :
      (make : ℕ → A) (next n : ℕ) (es : List (Entry A)) (q : ℕ)
      → status_of q (insert_fresh make next n es) ≡ some inuse
      → status_of q es ≡ some inuse
  unfolding insert_fresh
  status-insert_fresh_inuse make next zero es q h = h
  status-insert_fresh_inuse make next (suc n) es q h =
      let r =
        status-insert_fresh_inuse make (suc next) n
          (record { ptr = next; item = make next; status = free } ∷ es) q h in
      ground (arith, r)

  pub status-fresh :
      (next : ℕ) (es : List (Entry A)) (q : ℕ)
      → All (λ d. d.ptr < next) es
      → status_of q es ≡ some inuse
      → q < next
  status-fresh next [] q a h = absurd (cc)
  status-fresh next (e ∷ es) q a h = ground (arith, status-fresh next es q a.1, a.0, h)
