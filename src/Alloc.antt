-- ===== src/Alloc.antt =====
-- mem.c: `xmalloc`, and buffer.c and buffer_pool.c: what is allocated by it. `malloc n h` is what
-- malloc(3) gives for an object of `n` words on the heap `h`: NULL for `none`, and otherwise an
-- address with the words that happen to stand there.
pub mod Outcome
pub mod Made
pub mod Cycle
pub mod Values
pub mod Placed
pub mod Queues
use ttracker.Base.{
  ℕ, zero, suc, ◌+◌, ◌*◌, ◌≡◌, ◌≢◌, Option, none, some, length, ◌==◌, if◌then◌else◌, Bool, true,
  false,
}
use ttracker.BufferPool.{buffer_amp, max_rounds}
use ttracker.Heap.{
  null, Words, Heap, done, exited, Command, Effect, put, load, set_word, skip, ◌>>=◌, ◌>>◌,
}

abbrev pub Malloc : Type 0
Malloc = ℕ → Heap → Option (ℕ × Words)

-- What malloc(3) promises: the object is not NULL, does not overlap another, and has its size.
abbrev pub IsMalloc : Malloc → Type 0
IsMalloc malloc =
    (n : ℕ) (h : Heap) (p : ℕ) (w : Words)
    → malloc n h ≡ some (p, w)
    → (p ≢ null) × (h p ≡ none) × (length w ≡ n)

module _ (malloc : Malloc) where
  unfoldable pub xmalloc : ℕ → Command ℕ
  xmalloc n h = elim (malloc n h) [ none ↦ exited | some (p, w) ↦ done p (put h p (some w)) ]

  -- `mk_buffer`, with the words p, size and cursor
  unfoldable pub make_buffer : Command ℕ
  make_buffer = do b ← xmalloc 3; set_word b 0 null; set_word b 1 0; set_word b 2 0; done b

  -- One round of the loop of `buffer_pool_populate_pool`, with LIST_INSERT_HEAD.
  unfoldable pub insert_entry : ℕ → Effect
  insert_entry pool = do
    bpe ← xmalloc 3
    b ← make_buffer
    set_word bpe 1 b
    set_word bpe 2 0
    first ← load pool 0
    set_word bpe 0 first
    set_word pool 0 bpe

  unfoldable pub insert_entries : ℕ → ℕ → Effect
  insert_entries zero pool = skip
  insert_entries (suc n) pool = do insert_entry pool; insert_entries n pool

  -- `buffer_pool_populate_pool`, for a pool with the words pool, inuse and num: false for BUFF_WAIT.
  unfoldable pub grow_pool : ℕ → Command Bool
  grow_pool bp = do
    num ← load bp 2
    let grow : Command Bool = do
      pool ← load bp 0
      insert_entries buffer_amp pool
      set_word bp 2 (num + buffer_amp)
      done true
    if num == max_rounds * buffer_amp then done false else grow

  -- `s->bp = xmalloc(sizeof(*s->bp)); buffer_pool_init(s->bp);`
  unfoldable pub start_pool : Command ℕ
  start_pool = do
    bp ← xmalloc 3
    pool ← xmalloc 1
    set_word bp 0 pool
    set_word bp 1 0
    set_word bp 2 0
    list ← load bp 0
    set_word list 0 null
    grow_pool bp >>= λ _. done bp
