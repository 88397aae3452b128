-- ===== src/Free/Pools.antt =====
-- What `buffer_pool_stop_buffers` and `td_stop_td_pool` do alike: the entries are freed, each with
-- what it hands out, and then the list and the pool.
use ttracker.Base.{ℕ, ◌<◌, ◌≡◌, refl, List, [], ◌∷◌, ◌++◌, All, length}
use ttracker.Heap.{null, Words, Heap, done, Effect, load, set_word, free, each, ◌>>=◌, ◌>>◌}
use ttracker.Heap.Overlay.{
  Objects, overlay, AreFresh, overlay-append, AreFresh-append, free-first, load-past, load-middle,
  overlay-middle, set_word-middle,
}
use ttracker.Heap.Each.{Node, first, objects, IsFreed, each_lem}

-- For a pool with the words pool, inuse and num. The mutex is held, and destroyed with the pool.
unfoldable pub stop_pool : (ℕ → Effect) → ℕ → ℕ → Effect
stop_pool body k bp = do
  list ← load bp 0
  entry ← load list 0
  each body k entry
  list' ← load bp 0
  set_word list' 0 null
  list'' ← load bp 0
  free list''
  free bp

-- The objects of a pool at `bp` whose list is at `list`.
abbrev pub pool_objects : (bp list inuse num : ℕ) → List Node → Objects
pool_objects bp list inuse num nodes =
    objects nodes ++ (list, first nodes ∷ []) ∷ (bp, list ∷ inuse ∷ num ∷ []) ∷ []

module _ (body : ℕ → Effect) (bp list inuse num : ℕ) (nodes : List Node) (k : ℕ) (g : Heap) where
  abbrev pool : Words
  pool = list ∷ inuse ∷ num ∷ []

  abbrev behind : ℕ → Heap
  behind n = overlay ((list, n ∷ []) ∷ (bp, pool) ∷ []) g

  -- Up to the loop.
  pub stop_pool-enter :
      AreFresh (pool_objects bp list inuse num nodes) g
      → stop_pool body k bp (overlay (pool_objects bp list inuse num nodes) g)
        ≡ (each body k (first nodes) >> do
          list' ← load bp 0
          set_word list' 0 null
          list'' ← load bp 0
          free list''
          free bp)
            (overlay (objects nodes) (behind (first nodes)))
  unfolding stop_pool
  stop_pool-enter f =
      let h = behind (first nodes) in
      let (now, tail) =
        AreFresh-append (objects nodes) ((list, first nodes ∷ []) ∷ (bp, pool) ∷ []) g f in
      rw
        (
          overlay-append (objects nodes) ((list, first nodes ∷ []) ∷ (bp, pool) ∷ []) g,
          load-past (objects nodes) bp 0 pool list h now
              (overlay-middle ((list, first nodes ∷ []) ∷ []) bp pool [] g tail) refl,
          load-past (objects nodes) list 0 (first nodes ∷ []) (first nodes) h now
              (overlay-middle [] list (first nodes ∷ []) ((bp, pool) ∷ []) g tail) refl,
        )
        refl

  pub stop_pool_lem :
      length nodes < k
      → All (IsFreed body) nodes
      → AreFresh (pool_objects bp list inuse num nodes) g
      → stop_pool body k bp (overlay (pool_objects bp list inuse num nodes) g) ≡ done tt g
  stop_pool_lem l b f =
      let n = first nodes in
      let tail : Objects = (list, n ∷ []) ∷ (bp, pool) ∷ [] in
      let (now, (ln, le, (pn, pe, _))) = AreFresh-append (objects nodes) tail g f in
      rw
        (
          stop_pool-enter f,
          each_lem body nodes (behind n) k l b now,
          load-middle ((list, n ∷ []) ∷ []) bp 0 pool list [] g (ln, le, (pn, pe, tt)) refl,
          set_word-middle [] list 0 null (n ∷ []) ((bp, pool) ∷ []) g (ln, le, (pn, pe, tt)),
          load-middle ((list, null ∷ []) ∷ []) bp 0 pool list [] g (ln, le, (pn, pe, tt)) refl,
          free-first list (null ∷ []) (overlay ((bp, pool) ∷ []) g) le,
        )
        (free-first bp pool g pe)
