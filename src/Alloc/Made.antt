-- ===== src/Alloc/Made.antt =====
-- The pool of buffers as it is made and grows on a heap.
use ttracker.Base.{
  ℕ, zero, suc, ◌+◌, ◌*◌, ◌≤◌, ◌≡◌, refl, sym, ap, ◌∙◌, inl, inr, true, false, none, List, [], ◌∷◌,
  ◌++◌, map, length, arith, Bool-cases, ◌==◌,
}
use ttracker.BufferPool.{buffer_amp, max_rounds}
use ttracker.Heap.{null, Words, Heap, load}
use ttracker.Heap.Overlay.{
  Objects, overlay, AreFresh, AreFresh-set, load-middle, set_word-middle, load-third,
  set_word-third,
}
use ttracker.Heap.Each.{first, objects}
use ttracker.Free.Pools.{pool_objects}
use ttracker.Free.Buffers.{PoolBuffer, buffer_node}
use ttracker.Alloc.{Malloc, IsMalloc, xmalloc, make_buffer, insert_entry, insert_entries, grow_pool}
use ttracker.Alloc.Outcome.{Gives, bind, follow, xmalloc-Gives, three-words, make_buffer-Gives}

-- The heap is `g` with a pool of some buffers on it.
abbrev pub HasPool : Heap → (bp list num : ℕ) → List PoolBuffer → Heap → Type 0
HasPool g bp list num es h =
    (h ≡ overlay (pool_objects bp list 0 num (map buffer_node es)) g)
    × AreFresh (pool_objects bp list 0 num (map buffer_node es)) g

module _ (malloc : Malloc) (is : IsMalloc malloc) (g : Heap) (bp list : ℕ) where
  insert_entry-Gives :
      (num : ℕ) (es : List PoolBuffer) (h : Heap)
      → HasPool g bp list num es h
      → Gives malloc g
          (insert_entry malloc list)
          h
          (λ _ h'. (e : PoolBuffer) × HasPool g bp list num (e ∷ es) h')
  unfolding insert_entry
  insert_entry-Gives num es h (at, f) =
      let pool = pool_objects bp list 0 num (map buffer_node es) in
      let n = first (map buffer_node es) in
      let last : Objects = (bp, list ∷ 0 ∷ num ∷ []) ∷ [] in
      bind malloc g (xmalloc malloc 3) _ h _ _ (xmalloc-Gives malloc is g 3 pool h at)
        λ bpe h1 (w, e1, l, (bn, be)).
          let (x, y, z, s) = three-words w l in
          let w0 : Words = x ∷ y ∷ z ∷ [] in
          let e1' : h1 ≡ overlay ((bpe, w0) ∷ pool) g =
            e1 ∙ ap (λ v. overlay ((bpe, v) ∷ []) h) s ∙ ap (overlay ((bpe, w0) ∷ [])) at in
          bind malloc g (make_buffer malloc) _ h1 _ _
            (make_buffer-Gives malloc is g ((bpe, w0) ∷ pool) h1 e1')
            λ b h2 (e2, (cn, ce)).
              let W : Words = null ∷ 0 ∷ 0 ∷ [] in
              let w1 : Words = x ∷ b ∷ z ∷ [] in
              let w2 : Words = x ∷ b ∷ 0 ∷ [] in
              let w3 : Words = n ∷ b ∷ 0 ∷ [] in
              let top : Objects = (b, W) ∷ [] in
              let here : h2 ≡ overlay (top ++ (bpe, w0) ∷ pool) g = e2 ∙ ap (overlay top) e1' in
              let f0 : AreFresh (top ++ (bpe, w0) ∷ pool) g =
                (cn, ap (λ k. k b) (sym e1') ∙ ce, (bn, ap (λ k. k bpe) (sym at) ∙ be, f)) in
              let f1 = AreFresh-set top bpe w0 w1 pool g f0 in
              let f2 = AreFresh-set top bpe w1 w2 pool g f1 in
              let f3 = AreFresh-set top bpe w2 w3 pool g f2 in
              let body = top ++ (bpe, w3) ∷ objects (map buffer_node es) in
              rw
                (
                  here,
                  set_word-middle top bpe 1 b w0 pool g f0,
                  set_word-middle top bpe 2 0 w1 pool g f1,
                  load-middle (top ++ (bpe, w2) ∷ objects (map buffer_node es)) list 0 (n ∷ []) n
                      last g f2 refl,
                  set_word-middle top bpe 0 n w2 pool g f2,
                  set_word-middle body list 0 bpe (n ∷ []) last g f3,
                )
                (inr (
                  tt,
                  _,
                  refl,
                  (
                    record {
                      entry = bpe;
                      status = 0;
                      b = b;
                      p = none;
                      chars = [];
                      size = 0;
                      cursor = 0;
                    },
                    (refl, AreFresh-set body list (n ∷ []) (bpe ∷ []) last g f3),
                  ),
                ))

  insert_entries-Gives :
      (n num : ℕ) (es : List PoolBuffer) (h : Heap)
      → HasPool g bp list num es h
      → Gives malloc g (insert_entries malloc n list) h (λ _ h'.
        (fs : List PoolBuffer) × (length fs ≡ n + length es) × HasPool g bp list num fs h')
  unfolding insert_entries
  insert_entries-Gives zero num es h p = inr (tt, h, refl, (es, omega arith, p))
  insert_entries-Gives (suc n) num es h p =
      bind malloc g (insert_entry malloc list) _ h _ _ (insert_entry-Gives num es h p)
        λ _ h1 (e, q). elim (insert_entries-Gives n num (e ∷ es) h1 q) [
          | inl x ↦ inl x
          | inr (t, h2, r, (fs, l, s)) ↦ inr (t, h2, r, (fs, omega arith, s))
        ]

  -- A pool that is full stays as it is, and any other has four more entries.
  pub grow_pool-Gives :
      (num : ℕ) (es : List PoolBuffer) (h : Heap)
      → HasPool g bp list num es h
      → Gives malloc g (grow_pool malloc bp) h (λ _ h'.
        (m : ℕ) × (fs : List PoolBuffer) × (length fs ≤ 4 + length es) × HasPool g bp list m fs h')
  unfolding grow_pool
  grow_pool-Gives num es h (at, f) =
      let w : Words = list ∷ 0 ∷ num ∷ [] in
      let nodes = objects (map buffer_node es) in
      let head : Words = first (map buffer_node es) ∷ [] in
      rw at (
        follow malloc g (load bp 2) _ _ num _ _ (load-third nodes list head bp w g 2 num f refl)
          (elim (Bool-cases (num == max_rounds * buffer_amp)) [
            | inl full ↦ rw full (inr (false, _, refl, (num, es, omega arith, (refl, f))))
            | inr more ↦ rw more (
                follow malloc g (load bp 0) _ _ list _ _
                  (load-third nodes list head bp w g 0 list f refl)
                  (bind malloc g (insert_entries malloc buffer_amp list) _ _ _ _
                    (insert_entries-Gives 4 num es _ (refl, f))
                    λ _ h1 (fs, l, (e1, f1)).
                      let (stored, fresh) =
                        set_word-third (objects (map buffer_node fs)) list
                          (first (map buffer_node fs) ∷ []) bp w g 2 (num + buffer_amp) f1 in
                      rw e1 (
                        inr (
                          true,
                          _,
                          rw stored refl,
                          (num + buffer_amp, fs, omega arith, (refl, fresh)),
                        ))))
          ]))
