-- ===== src/Server/Counts.antt =====
-- How the numbers of entries in use change with the calls of the pools.
use ttracker.Base.{
  ℕ, suc, ◌+◌, ◌≤◌, ◌≡◌, ◌≢◌, ◌⊎◌, inl, inr, refl, sym, ap, subst, ◌∙◌, Option, none, some, length,
  arith, List, [], ◌∷◌, ◌++◌,
}
use ttracker.Pool.{
  Status, free, inuse, Pool, Attempt, init, populate, insert_fresh, waits, returns, get, join,
  in_use, status_of,
}
use ttracker.Pool.Weights.{weigh}
use ttracker.Pool.Sound.{IsSound, Held, in_use-length, get_lem, join_lem, join-aborts}
use ttracker.WorkQueue.{deq_job, td_list_deq}
use ttracker.BufferPool.{BufferPool, init_pool, get_buffer, join_buffer, IsPool}
use ttracker.TdPool.{init_td_pool, get_td, join_td, IsTdPool}

module _ {ℓ} {A : Type ℓ} where
  abbrev pool_of : Attempt A → Pool A
  pool_of (waits p) = p
  pool_of (returns r p) = p

  -- The pointer that is handed out.
  abbrev ptr_of : Attempt A → ℕ
  ptr_of (waits p) = 0
  ptr_of (returns none p) = 0
  ptr_of (returns (some x) p) = x

  waits-returns : {p q : Pool A} {r : Option ℕ} → waits p ≢ returns r q
  waits-returns h = cc

  get-count :
      (rounds amp : ℕ) (make : ℕ → A) (p q : Pool A) (x : ℕ)
      → IsSound rounds (suc amp) p
      → get rounds (suc amp) make p ≡ returns (some x) q
      → IsSound rounds (suc amp) q × ((f : ℕ → ℕ) → weigh f q.pool ≡ weigh f p.pool + f x)
  get-count rounds amp make p q x s h = elim (get_lem rounds amp make p s) [
    | inl (w, _, _) ↦ absurd (waits-returns (sym w ∙ h))
    | inr (y, r, g, t, _, _, c) ↦
        let same = ap pool_of (sym g ∙ h) in
        let ptr : y ≡ x = ap ptr_of (sym g ∙ h) in
        (
          subst (λ r. IsSound rounds (suc amp) r) same t,
          λ f. ap (λ r. weigh f r.pool) (sym same) ∙ c f ∙ ap (λ x. weigh f p.pool + f x) ptr,
        )
  ]

  Held-cases : (p : Pool A) (x : ℕ) → Held p x ⊎ (status_of x p.pool ≢ some inuse)
  Held-cases p x = cases (status_of x p.pool)
    where
      cases : (o : Option Status) → (o ≡ some inuse) ⊎ (o ≢ some inuse)
      cases none = inr (λ h. cc)
      cases (some inuse) = inl refl
      cases (some free) = inr (λ h. cc)

  none-some : {p : Pool A} → none ≢ some p
  none-some h = cc

  some-inj : {p q : Pool A} → some p ≡ some q → p ≡ q
  some-inj h = cc

  join-count :
      (rounds amp : ℕ) (reset : A → A) (p q : Pool A) (x : ℕ)
      → IsSound rounds amp p
      → join reset x p ≡ some q
      → IsSound rounds amp q × ((f : ℕ → ℕ) → weigh f q.pool + f x ≡ weigh f p.pool)
  join-count rounds amp reset p q x s h = elim (Held-cases p x) [
    | inl held ↦
        let (r, g, t, _, _, c) = join_lem rounds amp reset x p s held in
        let same = some-inj (sym g ∙ h) in
        (
          subst (λ r. IsSound rounds amp r) same t,
          λ f. ap (λ r. weigh f r.pool + f x) (sym same) ∙ c f,
        )
    | inr n ↦ absurd (none-some (sym (join-aborts reset x p n) ∙ h))
  ]

pub get_buffer-count :
    (p q : BufferPool) (b : ℕ)
    → IsPool p
    → get_buffer p ≡ returns (some b) q
    → IsPool q × ((f : ℕ → ℕ) → weigh f q.pool ≡ weigh f p.pool + f b)
unfolding IsPool get_buffer
get_buffer-count p q b s h = get-count _ _ _ p q b s h

pub join_buffer-count :
    (p q : BufferPool) (b : ℕ)
    → IsPool p
    → join_buffer p b ≡ some q
    → IsPool q × ((f : ℕ → ℕ) → weigh f q.pool + f b ≡ weigh f p.pool)
unfolding IsPool join_buffer
join_buffer-count p q b s h = join-count _ _ _ p q b s h

pub get_td-count :
    (fresh : ℕ) (p q : Pool ℕ) (td : ℕ)
    → IsTdPool p
    → get_td fresh p ≡ returns (some td) q
    → IsTdPool q × ((f : ℕ → ℕ) → weigh f q.pool ≡ weigh f p.pool + f td)
unfolding IsTdPool get_td
get_td-count fresh p q td s h = get-count _ _ _ p q td s h

pub join_td-count :
    (p q : Pool ℕ) (td : ℕ)
    → IsTdPool p
    → join_td p td ≡ some q
    → IsTdPool q × ((f : ℕ → ℕ) → weigh f q.pool + f td ≡ weigh f p.pool)
unfolding IsTdPool join_td
join_td-count p q td s h = join-count _ _ _ p q td s h

-- Of the at most 16 thread data no more are in use than there are.
pub in_use-tds : (p : Pool ℕ) → IsTdPool p → in_use p.pool ≤ 16
unfolding IsTdPool
in_use-tds p s = let (_, _, _, _, (k, le, eq)) = s in omega (arith, le, eq, in_use-length p.pool)

abbrev pub total {ℓ} : {A : Type ℓ} → (A → ℕ) → List A → ℕ
total f [] = 0
total f (x ∷ xs) = f x + total f xs

module _ {ℓ} {A : Type ℓ} where
  pub total-append : (f : A → ℕ) (xs ys : List A) → total f (xs ++ ys) ≡ total f xs + total f ys
  total-append f [] ys = omega arith
  total-append f (x ∷ xs) ys = omega (arith, total-append f xs ys)

  pub total-ones : (xs : List A) → total (λ x. 1) xs ≡ length xs
  total-ones [] = refl
  total-ones (x ∷ xs) = omega (arith, total-ones xs)

  abbrev weight_of : (A → ℕ) → Option (A × List A) → ℕ
  weight_of f none = 0
  weight_of f (some (a, rest)) = f a + total f rest

  abbrev is_taken : Option (A × List A) → ℕ
  is_taken none = 0
  is_taken (some r) = 1

  -- What is taken off a list is one entry.
  pub td_list_deq-total :
      (tds rest : List A) (td : A) (f : A → ℕ)
      → td_list_deq tds ≡ some (td, rest)
      → total f tds ≡ f td + total f rest
  unfolding td_list_deq
  td_list_deq-total [] rest td f h = absurd (omega (arith, ap is_taken h))
  td_list_deq-total (t ∷ tds) rest td f h = ap (weight_of f) h

  pub deq_job-total :
      (wq rest : List A) (job : A) (f : A → ℕ)
      → deq_job wq ≡ some (job, rest)
      → total f wq ≡ f job + total f rest
  unfolding deq_job
  deq_job-total [] rest job f h = absurd (omega (arith, ap is_taken h))
  deq_job-total (j ∷ wq) rest job f h = ap (weight_of f) h

-- Nothing is in use at the start.
pub init_pool-free : (f : ℕ → ℕ) → weigh f init_pool.pool ≡ 0
unfolding init_pool init populate insert_fresh
init_pool-free f = refl

pub init_td_pool-free : (f : ℕ → ℕ) → weigh f (init_td_pool {A = ℕ} 0).pool ≡ 0
unfolding init_td_pool init populate insert_fresh
init_td_pool-free f = refl
