-- ===== src/Alloc/Cycle.antt =====
-- A pool of buffers from its creation to its end.
use ttracker.Base.{
  none, ℕ, zero, suc, ◌+◌, ◌*◌, ◌≤◌, ◌<◌, ◌≡◌, ◌⊎◌, refl, sym, ap, ◌∙◌, inl, inr, List, [], ◌∷◌,
  length, arith,
}
use ttracker.Heap.{null, Words, Heap, done, exited, Effect, skip, ◌>>=◌, ◌>>◌}
use ttracker.Heap.Overlay.{Objects, overlay, AreFresh, AreFresh-set, load-middle, set_word-middle}
use ttracker.Free.Buffers.{PoolBuffer, stop_buffers, stop_buffers_lem}
use ttracker.Alloc.{Malloc, IsMalloc, xmalloc, grow_pool, start_pool}
use ttracker.Alloc.Outcome.{Gives, bind, xmalloc-Gives, one-word, three-words}
use ttracker.Alloc.Made.{HasPool, grow_pool-Gives}

-- `buffer_pool_populate_pool` is called any number of times.
unfoldable pub grow_times : Malloc → ℕ → ℕ → Effect
grow_times malloc zero bp = skip
grow_times malloc (suc r) bp = grow_pool malloc bp >>= λ _. grow_times malloc r bp

-- The life of a pool: it is made, it grows, and it is freed.
unfoldable pub pool_life : Malloc → (k r : ℕ) → Effect
pool_life malloc k r = do bp ← start_pool malloc; grow_times malloc r bp; stop_buffers k bp

module _ (malloc : Malloc) (is : IsMalloc malloc) (g : Heap) where
  start_pool-Gives : Gives malloc g (start_pool malloc) g (λ bp h'.
      (list : ℕ) × (num : ℕ) × (es : List PoolBuffer) × (length es ≤ 4)
      × HasPool g bp list num es h')
  unfolding start_pool
  start_pool-Gives =
      bind malloc g (xmalloc malloc 3) _ g _ _ (xmalloc-Gives malloc is g 3 [] g refl)
        λ bp h1 (w, e1, l, (bn, be)).
          let (x, y, z, s) = three-words w l in
          let w0 : Words = x ∷ y ∷ z ∷ [] in
          let at : h1 ≡ overlay ((bp, w0) ∷ []) g = e1 ∙ ap (λ v. overlay ((bp, v) ∷ []) g) s in
          bind malloc g (xmalloc malloc 1) _ h1 _ _
            (xmalloc-Gives malloc is g 1 ((bp, w0) ∷ []) h1 at)
            λ pool h2 (v, e2, m, (pn, pe)).
              let (u, t) = one-word v m in
              let w1 : Words = pool ∷ y ∷ z ∷ [] in
              let w2 : Words = pool ∷ 0 ∷ z ∷ [] in
              let w3 : Words = pool ∷ 0 ∷ 0 ∷ [] in
              let top : Objects = (pool, u ∷ []) ∷ [] in
              let here : h2 ≡ overlay ((pool, u ∷ []) ∷ (bp, w0) ∷ []) g =
                e2
                ∙ ap (λ v. overlay ((pool, v) ∷ []) h1) t
                ∙ ap (overlay ((pool, u ∷ []) ∷ [])) at in
              let f0 : AreFresh ((pool, u ∷ []) ∷ (bp, w0) ∷ []) g =
                (pn, ap (λ k. k pool) (sym at) ∙ pe, (bn, be, tt)) in
              let f1 = AreFresh-set top bp w0 w1 [] g f0 in
              let f2 = AreFresh-set top bp w1 w2 [] g f1 in
              let f3 = AreFresh-set top bp w2 w3 [] g f2 in
              rw
                (
                  here,
                  set_word-middle top bp 0 pool w0 [] g f0,
                  set_word-middle top bp 1 0 w1 [] g f1,
                  set_word-middle top bp 2 0 w2 [] g f2,
                  load-middle top bp 0 w3 pool [] g f3 refl,
                  set_word-middle [] pool 0 null (u ∷ []) ((bp, w3) ∷ []) g f3,
                )
                (bind malloc g (grow_pool malloc bp) _ _ _ _
                  (grow_pool-Gives malloc is g bp pool 0 [] _ (refl, f3))
                  λ _ h' (num, es, le, p). inr (bp, h', refl, (pool, num, es, le, p)))

  grow_times-Gives :
      (r bp list num : ℕ) (es : List PoolBuffer) (h : Heap)
      → HasPool g bp list num es h
      → Gives malloc g (grow_times malloc r bp) h (λ _ h'.
        (m : ℕ) × (fs : List PoolBuffer) × (length fs ≤ 4 * r + length es)
        × HasPool g bp list m fs h')
  unfolding grow_times
  grow_times-Gives zero bp list num es h p = inr (tt, h, refl, (num, es, omega arith, p))
  grow_times-Gives (suc r) bp list num es h p =
      bind malloc g (grow_pool malloc bp) _ h _ _ (grow_pool-Gives malloc is g bp list num es h p)
        λ _ h1 (m, fs, le, q). elim (grow_times-Gives r bp list m fs h1 q) [
          | inl x ↦ inl x
          | inr (t, h2, e, (n, ds, l, s)) ↦ inr (t, h2, e, (n, ds, omega arith, s))
        ]

  pool_life-Gives :
      (k r : ℕ) → 4 * r + 4 < k → Gives malloc g (pool_life malloc k r) g (λ _ h'. h' ≡ g)
  unfolding pool_life
  pool_life-Gives k r l =
      bind malloc g (start_pool malloc) _ g _ _ start_pool-Gives λ bp h1 (list, num, es, le, p).
        bind malloc g (grow_times malloc r bp) _ h1 _ _ (grow_times-Gives r bp list num es h1 p)
          λ _ h2 (m, fs, ls, (e, f)).
            rw e (inr (tt, g, stop_buffers_lem bp list 0 m fs k g (omega (arith, le, ls)) f, refl))

  -- With a malloc that gives NULL or an object of its own, of the size that is asked for: a pool of
  -- buffers that is allocated, initialised, grown any number of times and freed on any heap leaves
  -- that heap as it was, or the program ends with `exit`, and then there are a size and some objects
  -- such that malloc gives NULL for the size, on that heap with the objects on it. Fuel above the number of buffers that there can be is enough.
  pub pool_life_lem :
      (k r : ℕ)
      → 4 * r + 4 < k
      → ((pool_life malloc k r g ≡ exited)
          × (n : ℕ) × (xs : Objects) × (malloc n (overlay xs g) ≡ none))
        ⊎ (pool_life malloc k r g ≡ done tt g)
  pool_life_lem k r l = elim (pool_life-Gives k r l) [
    | inl x ↦ inl x
    | inr (t, h, e, s) ↦ inr (e ∙ ap (done tt) s)
  ]
