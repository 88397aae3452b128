-- ===== src/Pool/Sound.antt =====
-- The invariant of a pool, and what its operations do to the pointers that are held.
use ttracker.Base.{
  ℕ, suc, ◌+◌, ◌*◌, ◌<◌, ◌≤◌, ◌≡◌, ◌≢◌, ◌⊎◌, ◌↔◌, inl, inr, refl, sym, ap, subst, ◌∙◌, true, false,
  none, some, List, [], ◌∷◌, All, arith, length, Bool-cases,
}
use ttracker.Base.Int.{pos, eq_ℤ, eq_ℤ_iff, ◌+ℤ◌, ◌-ℤ◌, pos-+ℤ-pos, pos--ℤ-pos}
use native.Mathlib.Numerals.{unary_clauses}
use ttracker.Pool.{
  inuse, Entry, insert_fresh, status_of, in_use, AreDistinct, Pool, waits, returns, populate, init,
  scan, wait_then_scan, get, join,
}
use ttracker.Pool.Entries.{
  take_free-cases, give_back-Gives, give_back-aborts, count-Takes, count-Gives,
}
use ttracker.Pool.Statuses.{
  All-Takes, All-Gives, AreDistinct-Takes, AreDistinct-Gives, status-Takes, status-Gives,
  count-insert_fresh, AreDistinct-insert_fresh, status-insert_fresh, status-insert_fresh_inuse,
  status-fresh,
}
use ttracker.Pool.Weights.{weigh, weigh-Takes, weigh-Gives, weigh-insert_fresh}
use ttracker.Pool.Counts.{
  le-cases, some-free, set_pointer, clear_pointer, any_free, none_free, all_in_use, not_all, never,
  carry_over,
}

module _ {ℓ} {A : Type ℓ} where
  -- The counters are the numbers of entries, no two entries have the same pointer, and the pool has
  -- grown at most `rounds` times.
  abbrev pub IsSound : (rounds amp : ℕ) → Pool A → Type ℓ
  IsSound rounds amp p =
      AreDistinct p.pool
      × All (λ e. e.ptr < p.next) p.pool
      × (p.inuse_count ≡ pos (in_use p.pool))
      × (p.num ≡ pos (length p.pool))
      × ((k : ℕ) × (k ≤ rounds) × (length p.pool ≡ k * amp))

  -- The pointer is handed out.
  abbrev pub Held : Pool A → ℕ → Type 0
  Held p x = status_of x p.pool ≡ some inuse

  pub in_use-length : (es : List (Entry A)) → in_use es ≤ length es
  in_use-length [] = omega arith
  in_use-length (e ∷ es) = ground (arith, in_use-length es)

  -- With a free entry, the scan finds one.
  pub scan_lem :
      (rounds amp : ℕ) (p : Pool A)
      → IsSound rounds amp p
      → in_use p.pool < length p.pool
      → (x : ℕ) × (q : Pool A) × (scan p ≡ returns (some x) q)
        × IsSound rounds amp q
        × (status_of x p.pool ≢ some inuse)
        × ((y : ℕ) → Held q y ↔ ((y ≡ x) ⊎ Held p y))
        × ((f : ℕ → ℕ) → weigh f q.pool ≡ weigh f p.pool + f x)
  unfolding scan
  scan_lem rounds amp p (d, b, u, n, (k, le, eq)) h = elim (take_free-cases p.pool) [
    | inl (f, c) ↦ absurd (omega (arith, c, h))
    | inr (x, es, f, t) ↦
        let (c, l) = count-Takes t in
        let (s, g) = status-Takes t d in
        (
          x,
          record p { pool = es; inuse_count = p.inuse_count +ℤ pos 1 },
          rw (scan, f) refl,
          (
            AreDistinct-Takes t d,
            (All-Takes (λ y. y < p.next) t b).0,
            ap (λ i. i +ℤ pos 1) u ∙ pos-+ℤ-pos _ 1 ∙ ap (λ i. pos i) (sym c),
            n ∙ ap (λ i. pos i) (sym l),
            (k, le, l ∙ eq),
          ),
          (λ held. some-free (sym s ∙ held)),
          (λ y. set_pointer x y (status_of y p.pool) (g y)),
          λ f. weigh-Takes f t,
        )
  ]

  -- A pool that still may grow does so, and has a free entry then.
  pub populate_lem :
      (rounds amp : ℕ) (make : ℕ → A) (p : Pool A)
      → IsSound rounds (suc amp) p
      → ((populate rounds (suc amp) make p ≡ (false, p)) × (p.num ≡ pos (rounds * suc amp)))
        ⊎ ((q : Pool A) × (populate rounds (suc amp) make p ≡ (true, q))
            × IsSound rounds (suc amp) q
            × (in_use q.pool < length q.pool)
            × ((y : ℕ) → Held q y ↔ Held p y)
            × ((f : ℕ → ℕ) → weigh f q.pool ≡ weigh f p.pool))
  unfolding populate
  populate_lem rounds amp make p (d, b, u, n, (k, le, eq)) =
      elim (Bool-cases (eq_ℤ p.num (pos (rounds * suc amp)))) [
        | inl t ↦ inl (rw t refl, (eq_ℤ_iff p.num (pos (rounds * suc amp))).0 t)
        | inr f ↦
            let a = suc amp in
            let es = insert_fresh make p.next a p.pool in
            let (c, l) = count-insert_fresh make p.next a p.pool in
            let (b', d') = AreDistinct-insert_fresh make p.next a p.pool b d in
            let below : k < rounds = elim (le-cases le) [
              | inl lt ↦ lt
              | inr q ↦ absurd (
                  let e =
                    (eq_ℤ_iff p.num (pos (rounds * a))).1
                      (n ∙ ap (λ i. pos i) (eq ∙ ap (λ i. i * a) q)) in
                  cc)
            ] in
            inr (
              record {
                pool = es;
                inuse_count = p.inuse_count;
                num = p.num +ℤ pos a;
                next = p.next + a;
              },
              rw f refl,
              (
                d',
                b',
                u ∙ ap (λ i. pos i) (sym c),
                ap (λ i. i +ℤ pos a) n ∙ pos-+ℤ-pos _ a ∙ ap (λ i. pos i) (omega (arith, l)),
                (suc k, below, l ∙ simp unary_clauses (omega (arith, eq))),
              ),
              (omega (arith, l, c, in_use-length p.pool)),
              (λ y. (
                status-insert_fresh_inuse make p.next a p.pool y,
                λ held.
                    status-insert_fresh make p.next a p.pool y (status-fresh p.next p.pool y b held)
                    ∙ held,
              )),
              λ f. weigh-insert_fresh f make p.next a p.pool,
            )
      ]

  pub init-IsSound :
      (rounds amp : ℕ) (make : ℕ → A)
      → IsSound (suc rounds) (suc amp) (init (suc rounds) (suc amp) make)
  unfolding init
  init-IsSound rounds amp make =
      let empty : Pool A = record { pool = []; inuse_count = pos 0; num = pos 0; next = 0 } in
      elim (populate_lem (suc rounds) amp make empty
        (tt, tt, refl, refl, (0, omega arith, omega arith))) [
          | inl (h, g) ↦ absurd (never rounds amp g)
          | inr (q, h, s, l, y, _) ↦ subst (λ r. IsSound (suc rounds) (suc amp) r.1) (sym h) s
        ]

  -- What the `get` functions do, on every branch.
  pub get_lem :
      (rounds amp : ℕ) (make : ℕ → A) (p : Pool A)
      → IsSound rounds (suc amp) p
      → ((get rounds (suc amp) make p ≡ waits p)
          × (p.num ≡ pos (rounds * suc amp))
          × (in_use p.pool ≡ length p.pool))
        ⊎ ((x : ℕ) × (q : Pool A) × (get rounds (suc amp) make p ≡ returns (some x) q)
            × IsSound rounds (suc amp) q
            × (status_of x p.pool ≢ some inuse)
            × ((y : ℕ) → Held q y ↔ ((y ≡ x) ⊎ Held p y))
            × ((f : ℕ → ℕ) → weigh f q.pool ≡ weigh f p.pool + f x))
  unfolding get wait_then_scan
  get_lem rounds amp make p s =
      let (d, b, u, n, k) = s in
      let le = in_use-length p.pool in
      elim (le-cases le) [
        | inl lt ↦
            let (x, q, h, t, f, g, c) = scan_lem rounds (suc amp) p s lt in
            inr (x, q, rw (get, any_free p.num p.inuse_count n u lt) h, t, f, g, c)
        | inr e ↦ elim (populate_lem rounds amp make p s) [
          | inl (h, g) ↦ inl (
            rw
                (
                  get,
                  none_free p.num p.inuse_count n u e,
                  h,
                  wait_then_scan,
                  all_in_use p.num p.inuse_count n u e,
                )
                refl,
            g,
            e,
          )
          | inr (r, h, t, lt, held, c) ↦
              let (x, q, h', t', f, g, c') = scan_lem rounds (suc amp) r t lt in
              inr (
                x,
                q,
                rw (get, none_free p.num p.inuse_count n u e, h) h',
                t',
                (λ y. f ((held x).1 y)),
                (λ y. carry_over (g y) (held y)),
                λ f. c' f ∙ ap (λ n. n + f x) (c f),
              )
        ]
      ]

  pub join_lem :
      (rounds amp : ℕ) (reset : A → A) (x : ℕ) (p : Pool A)
      → IsSound rounds amp p
      → Held p x
      → (q : Pool A) × (join reset x p ≡ some q)
        × IsSound rounds amp q
        × (in_use q.pool < length q.pool)
        × ((y : ℕ) → Held q y ↔ ((y ≢ x) × Held p y))
        × ((f : ℕ → ℕ) → weigh f q.pool + f x ≡ weigh f p.pool)
  unfolding join
  join_lem rounds amp reset x p (d, b, u, n, (k, le, eq)) held =
      let (es, g, t) = give_back-Gives reset x p.pool held in
      let (c, l) = count-Gives t in
      (
        record p { pool = es; inuse_count = p.inuse_count -ℤ pos 1 },
        rw (join, g) refl,
        (
          AreDistinct-Gives t d,
          All-Gives (λ y. y < p.next) t b,
          ap (λ i. i -ℤ pos 1) u
              ∙ pos--ℤ-pos _ 1 (omega (arith, c))
              ∙ ap (λ i. pos i) (omega (arith, c)),
          n ∙ ap (λ i. pos i) (sym l),
          (k, le, l ∙ eq),
        ),
        omega (arith, c, l, in_use-length p.pool),
        (λ y. clear_pointer x y (status_of y p.pool) (status-Gives t y)),
        λ f. weigh-Gives f t,
      )

  pub join-aborts :
      (reset : A → A) (x : ℕ) (p : Pool A) → status_of x p.pool ≢ some inuse → join reset x p ≡ none
  unfolding join
  join-aborts reset x p h = rw (join, give_back-aborts reset x p.pool h) refl

  -- After the signal of a join, the waiting loop ends and the scan finds an entry.
  pub wait_then_scan_lem :
      (rounds amp : ℕ) (p : Pool A)
      → IsSound rounds amp p
      → in_use p.pool < length p.pool
      → (x : ℕ) × (q : Pool A) × (wait_then_scan p ≡ returns (some x) q) × IsSound rounds amp q
  unfolding wait_then_scan
  wait_then_scan_lem rounds amp p s l =
      let (x, q, h, t, f, g, _) = scan_lem rounds amp p s l in
      let (d, b, u, n, k) = s in (x, q, rw (wait_then_scan, not_all p.num p.inuse_count n u l) h, t)
