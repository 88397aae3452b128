-- ===== src/Threads/Creation.antt =====
-- What `server_init_threads` ends with, whatever pthread_create gives.
use ttracker.Base.{
  true, false, ℕ, zero, suc, ◌+◌, ◌≤◌, ◌<◌, ◌≡◌, refl, ◌⊎◌, inl, inr, List, [], ◌∷◌, ◌++◌,
  Bool-cases, subst, sym, ap, ◌∙◌, ==_iff, ltb, ◌==◌, if◌then◌else◌, arith,
}
use ttracker.Base.Int.{ℤ, negsuc, eq_ℤ}
use ttracker.Threads.{
  half, max_try, Spawned, insert_tail, insert_thread, Spawning, runs, exits, spawn_loop,
  init_threads,
}

-- How many of the first calls gave -1.
unfoldable pub failed : (ℕ → ℤ) → ℕ → ℕ
failed create zero = 0
failed create (suc c) = failed create c + (if eq_ℤ (create c) (negsuc 0) then 1 else 0)

failed-next :
    (create : ℕ → ℤ) (c n : ℕ)
    → n ≡ suc c
    → failed create n ≡ failed create c + (if eq_ℤ (create c) (negsuc 0) then 1 else 0)
unfolding failed
failed-next create c n e = ap (failed create) e

-- The workers and producers below `i`, as they are created.
abbrev pub pairs : ℕ → List ℕ
pairs zero = []
pairs (suc i) = pairs i ++ i ∷ (i + half) ∷ []

-- Insertion in the three states that the loop meets: the pairs below `i`, with the worker `i` behind
-- them where its producer could not be created.
record IsBuilt (i : ℕ) : Type 0 where
  first : insert_tail i (pairs i) ≡ (pairs i ++ i ∷ [], false)
  second : insert_tail i (pairs i ++ i ∷ []) ≡ (pairs i ++ i ∷ [], true)
  both : insert_tail (i + half) (pairs i ++ i ∷ []) ≡ (pairs (suc i), false)

built : (i : ℕ) → i < half → IsBuilt i
unfolding insert_tail
built zero h = record { first = refl; second = refl; both = refl }
built (suc zero) h = record { first = refl; second = refl; both = refl }
built (suc (suc zero)) h = record { first = refl; second = refl; both = refl }
built (suc (suc (suc zero))) h = record { first = refl; second = refl; both = refl }
built (suc (suc (suc (suc i)))) h = absurd (omega arith)

-- The list is that of the pairs below `i`, or the worker `i` stands behind them once, though it was
-- inserted and counted several times. Every such insertion follows a failure.
pub record HasThreads (i tries : ℕ) (s : Spawned) : Type 0 where
  pub listed :
      ((s.th_list ≡ pairs i) × (s.looped ≡ false)) ⊎ ((s.th_list ≡ pairs i ++ i ∷ []) × (i < half))
  pub at_least : i + i ≤ s.th_count
  pub at_most : s.th_count ≤ i + i + tries

module _ {i tries : ℕ} {s : Spawned} where
  with_worker : i < half → HasThreads i tries s → (insert_thread i s).th_list ≡ pairs i ++ i ∷ []
  unfolding insert_thread
  with_worker l h = elim h.listed [
    | inl (e, _) ↦ ap (λ ts. (insert_tail i ts).0) e ∙ ap (λ r. r.0) (built i l).first
    | inr (e, _) ↦ ap (λ ts. (insert_tail i ts).0) e ∙ ap (λ r. r.0) (built i l).second
  ]

  worker_again : i < half → HasThreads i tries s → HasThreads i (tries + 1) (insert_thread i s)
  unfolding insert_thread
  worker_again l h = record {
    listed = inr (with_worker l h, l);
    at_least = omega (arith, h.at_least);
    at_most = omega (arith, h.at_most);
  }

  both_more :
      i < half
      → HasThreads i tries s
      → HasThreads (i + 1) tries (insert_thread (i + half) (insert_thread i s))
  unfolding insert_thread
  both_more l h =
      let e = with_worker l h in
      let whole = ap (λ ts. insert_tail (i + half) ts) e ∙ (built i l).both in
      let same : suc i ≡ i + 1 = omega arith in
      record {
        listed = inl (ap (λ r. r.0) whole ∙ ap pairs same, ap (λ r. r.1) whole);
        at_least = omega (arith, h.at_least);
        at_most = omega (arith, h.at_most);
      }

  one_failure : HasThreads i tries s → HasThreads i (tries + 1) s
  one_failure h = record {
    listed = h.listed;
    at_least = h.at_least;
    at_most = omega (arith, h.at_most);
  }

-- Each of the eight threads once, in this order, and the counter, after `tries` failures.
pub record HasAll (tries : ℕ) (s : Spawned) : Type 0 where
  pub listed : s.th_list ≡ 0 ∷ 4 ∷ 1 ∷ 5 ∷ 2 ∷ 6 ∷ 3 ∷ 7 ∷ []
  pub ends : s.looped ≡ false
  pub at_least : 8 ≤ s.th_count
  pub at_most : s.th_count ≤ 8 + tries

-- How the loop may end.
abbrev pub Ends : (ℕ → ℤ) → Spawning → Type 0
Ends create r =
    ((s : Spawned) × (tries : ℕ) × (r ≡ runs s) × (tries < max_try) × HasAll tries s)
    ⊎ ((s : Spawned) × (n : ℕ) × (r ≡ exits s) × (failed create n ≡ max_try))

all_threads : {tries : ℕ} {s : Spawned} → HasThreads half tries s → HasAll tries s
all_threads h = elim h.listed [
  | inl (e, l) ↦ record { listed = e; ends = l; at_least = h.at_least; at_most = h.at_most }
  | inr (e, l) ↦ absurd (omega (arith, l))
]

spawn_loop-Ends :
    (create : ℕ → ℤ) (f c i tries : ℕ) (s : Spawned)
    → i ≤ half
    → tries < max_try
    → half + max_try < f + i + tries
    → failed create c ≡ tries
    → HasThreads i tries s
    → Ends create (spawn_loop create f c i tries s)
unfolding spawn_loop
spawn_loop-Ends create zero c i tries s le lt fuel e h = absurd (omega arith)
spawn_loop-Ends create (suc f) c i tries s le lt fuel e h = elim (Bool-cases (ltb i half)) [
  | inr over ↦
      let same : half ≡ i = ground arith in
      rw over
        (inl (s, tries, refl, lt, all_threads (subst (λ k. HasThreads k tries s) (sym same) h)))
  | inl below ↦
      let il : i < half = ground arith in
      elim (Bool-cases (eq_ℤ (create c) (negsuc 0))) [
        | inl bad ↦
            let next : failed create (c + 1) ≡ tries + 1 =
              rw (failed-next create c (c + 1) (omega arith), bad) (ap (λ n. n + 1) e) in
            elim (Bool-cases (tries + 1 == max_try)) [
              | inl last ↦ rw (below, bad, last) (inr (s, c + 1, refl, next ∙ (==_iff _ _).0 last))
              | inr more ↦
                  rw (below, bad, more)
                    (spawn_loop-Ends create f (c + 1) i (tries + 1) s le (ground arith)
                      (omega arith) next (one_failure h))
            ]
        | inr good ↦
            let same : failed create (c + 1) ≡ tries =
              rw (failed-next create c (c + 1) (omega arith), good) (omega (arith, e)) in
            elim (Bool-cases (eq_ℤ (create (c + 1)) (negsuc 0))) [
              | inl bad ↦
                  let next : failed create (c + 2) ≡ tries + 1 =
                    rw (failed-next create (c + 1) (c + 2) (omega arith), bad)
                      (ap (λ n. n + 1) same) in
                  elim (Bool-cases (tries + 1 == max_try)) [
                    | inl last ↦
                        rw (below, good, bad, last)
                          (inr (insert_thread i s, c + 2, refl, next ∙ (==_iff _ _).0 last))
                    | inr more ↦
                        rw (below, good, bad, more)
                          (spawn_loop-Ends create f (c + 2) i (tries + 1) (insert_thread i s) le
                            (ground arith) (omega arith) next (worker_again il h))
                  ]
              | inr fine ↦
                  let next : failed create (c + 2) ≡ tries =
                    rw (failed-next create (c + 1) (c + 2) (omega arith), fine)
                      (omega (arith, same)) in
                  rw (below, good, fine)
                    (spawn_loop-Ends create f (c + 2) (i + 1) tries
                      (insert_thread (i + half) (insert_thread i s)) (omega arith) lt (omega arith)
                      next (both_more il h))
            ]
      ]
]

pub init_threads-Ends : (create : ℕ → ℤ) → Ends create (init_threads create)
unfolding init_threads failed
init_threads-Ends create =
    spawn_loop-Ends create 15 0 0 0 (record { th_list = []; looped = false; th_count = 0 })
      (omega arith) (omega arith) (omega arith) refl
      record { listed = inl (refl, refl); at_least = omega arith; at_most = omega arith }
