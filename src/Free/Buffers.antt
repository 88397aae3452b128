-- ===== src/Free/Buffers.antt =====
-- buffer.c and buffer_pool.c: the functions that free a buffer, its chars, and the pool.
use ttracker.Base.{
  ℕ, ◌<◌, ◌≡◌, refl, Option, List, [], ◌∷◌, ◌++◌, map, All, length, arith, length-map,
}
use ttracker.Heap.{null, Words, Heap, done, Effect, load, set_word, free, unless_null, ◌>>=◌, ◌>>◌}
use ttracker.Heap.Overlay.{
  Objects, overlay, AreFresh, overlay-append, AreFresh-append, free-first, load-middle,
  set_word-middle,
}
use ttracker.Heap.Each.{Node, IsFreed}
use ttracker.Free.Pools.{pool_objects, stop_pool, stop_pool_lem}
use ttracker.Free.{pointer, pointee, unless_null-free}

-- `buffer_init_buffer` on an object with the words p, size and cursor
unfoldable pub init_buffer : ℕ → Effect
init_buffer b = do set_word b 0 null; set_word b 2 0; set_word b 1 0

unfoldable pub truncate_buffer : ℕ → Effect
truncate_buffer b = do p ← load b 0; unless_null p (free p); init_buffer b

unfoldable pub free_buffer : ℕ → Effect
free_buffer b = do p ← load b 0; unless_null p (free p); free b

-- The body of the loop of `buffer_pool_stop_buffers`, for an entry with the words b and status.
unfoldable pub stop_entry : ℕ → Effect
stop_entry bpe = do b ← load bpe 1; truncate_buffer b; b' ← load bpe 1; free b'; free bpe

-- `buffer_pool_stop_buffers`, with fuel for as many rounds
unfoldable pub stop_buffers : ℕ → ℕ → Effect
stop_buffers k bp = stop_pool stop_entry k bp

-- A buffer at `b` with its chars.
abbrev pub buffer_objects : ℕ → Option ℕ → Words → ℕ → ℕ → Objects
buffer_objects b p chars size cursor = pointee p chars ++ (b, pointer p ∷ size ∷ cursor ∷ []) ∷ []

module _ (b : ℕ) (p : Option ℕ) (chars : Words) (size cursor : ℕ) where
  abbrev buf : ℕ × Words
  buf = (b, pointer p ∷ size ∷ cursor ∷ [])

  chars_freed :
      (g : Heap)
      → AreFresh (buffer_objects b p chars size cursor) g
      → unless_null
          (pointer p)
          (free (pointer p))
          (overlay (buffer_objects b p chars size cursor) g)
        ≡ done tt (overlay (buf ∷ []) g)
  chars_freed g f =
      let (now, _) = AreFresh-append (pointee p chars) (buf ∷ []) g f in
      rw (overlay-append (pointee p chars) (buf ∷ []) g)
        (unless_null-free p chars (overlay (buf ∷ []) g) now)

  pub truncate_buffer_lem :
      (g : Heap)
      → AreFresh (buffer_objects b p chars size cursor) g
      → truncate_buffer b (overlay (buffer_objects b p chars size cursor) g)
        ≡ done tt (overlay ((b, null ∷ 0 ∷ 0 ∷ []) ∷ []) g)
  unfolding truncate_buffer init_buffer
  truncate_buffer_lem g f =
      let (_, (n, e, _)) = AreFresh-append (pointee p chars) (buf ∷ []) g f in
      rw
        (
          load-middle (pointee p chars) b 0 (buf.1) (pointer p) [] g f refl,
          chars_freed g f,
          set_word-middle [] b 0 null (buf.1) [] g (n, e, tt),
          set_word-middle [] b 2 0 (null ∷ size ∷ cursor ∷ []) [] g (n, e, tt),
          set_word-middle [] b 1 0 (null ∷ size ∷ 0 ∷ []) [] g (n, e, tt),
        )
        refl

  -- On a heap that has a buffer and, if it points to any, its chars, beside any objects at other
  -- addresses, `buffer_free_buffer` frees both once, and leaves exactly the other objects.
  pub free_buffer_lem :
      (g : Heap)
      → AreFresh (buffer_objects b p chars size cursor) g
      → free_buffer b (overlay (buffer_objects b p chars size cursor) g) ≡ done tt g
  unfolding free_buffer
  free_buffer_lem g f =
      let (_, (n, e, _)) = AreFresh-append (pointee p chars) (buf ∷ []) g f in
      rw (load-middle (pointee p chars) b 0 (buf.1) (pointer p) [] g f refl, chars_freed g f)
        (free-first b (buf.1) g e)

-- An entry of the pool, with its buffer.
pub record PoolBuffer : Type 0 where
  pub entry : ℕ
  pub status : ℕ
  pub b : ℕ
  pub p : Option ℕ
  pub chars : Words
  pub size : ℕ
  pub cursor : ℕ

abbrev pub buffer_node : PoolBuffer → Node
buffer_node e = record {
  at = e.entry;
  fields = e.b ∷ e.status ∷ [];
  own = buffer_objects e.b e.p e.chars e.size e.cursor;
}

stop_entry-IsFreed : (e : PoolBuffer) → IsFreed stop_entry (buffer_node e)
unfolding stop_entry
stop_entry-IsFreed e n h f =
    let own = buffer_objects e.b e.p e.chars e.size e.cursor in
    let bpe : Words = n ∷ e.b ∷ e.status ∷ [] in
    let buf : Words = pointer e.p ∷ e.size ∷ e.cursor ∷ [] in
    let rest = overlay ((e.entry, bpe) ∷ []) h in
    let (mine, entry) = AreFresh-append own ((e.entry, bpe) ∷ []) h f in
    let (_, (bn, be, _)) = AreFresh-append (pointee e.p e.chars) ((e.b, buf) ∷ []) rest mine in
    rw
      (
        load-middle own e.entry 1 bpe e.b [] h f refl,
        overlay-append own ((e.entry, bpe) ∷ []) h,
        truncate_buffer_lem e.b e.p e.chars e.size e.cursor rest mine,
        load-middle ((e.b, null ∷ 0 ∷ 0 ∷ []) ∷ []) e.entry 1 bpe e.b [] h (bn, be, entry) refl,
        free-first e.b (null ∷ 0 ∷ 0 ∷ []) rest be,
      )
      (free-first e.entry bpe h entry.1)

entries-IsFreed : (es : List PoolBuffer) → All (IsFreed stop_entry) (map buffer_node es)
entries-IsFreed [] = tt
entries-IsFreed (e ∷ es) = (stop_entry-IsFreed e, entries-IsFreed es)

-- On a heap that has a buffer pool with any entries, their buffers and the chars of those, beside any
-- objects at other addresses, `buffer_pool_stop_buffers` ends with every object of the pool freed
-- once, and leaves exactly the other objects. Fuel above the number of entries is enough.
pub stop_buffers_lem :
    (bp list inuse num : ℕ) (es : List PoolBuffer) (k : ℕ) (g : Heap)
    → length es < k
    → AreFresh (pool_objects bp list inuse num (map buffer_node es)) g
    → stop_buffers k bp (overlay (pool_objects bp list inuse num (map buffer_node es)) g)
      ≡ done tt g
unfolding stop_buffers
stop_buffers_lem bp list inuse num es k g l f =
    stop_pool_lem stop_entry bp list inuse num (map buffer_node es) k g
      (omega (arith, length-map buffer_node es)) (entries-IsFreed es) f
