-- ===== src/BufferPool.antt =====
-- buffer_pool.c: the pool of output buffers. `get_buffer` and `join_buffer` run with the mutex held
-- throughout, except in pthread_cond_wait. A buffer is named by its pointer; what a worker does with
-- a buffer that it holds is in Buffer.antt.
use ttracker.Base.{inl, inr, ℕ, ◌≡◌, ◌≢◌, ◌⊎◌, ◌↔◌, Option, none, some, Bool, length}
use ttracker.Base.Int.{pos}
use ttracker.Buffer.{Buffer, mk_buffer, zero_buffer}
use ttracker.Pool.{
  Pool, Attempt, waits, returns, populate, init, get, join, wait_then_scan, in_use, status_of,
  inuse,
}
use ttracker.Pool.Sound.{
  IsSound, Held, init-IsSound, get_lem, join_lem, join-aborts, wait_then_scan_lem,
}

-- BUFFER_AMP; MAX_BUFFERS is `max_rounds` times that.
abbrev pub buffer_amp : ℕ
buffer_amp = 4

abbrev pub max_rounds : ℕ
max_rounds = 16

abbrev pub BufferPool : Type 0
BufferPool = Pool Buffer

-- `true` for BUFF_OK, `false` for BUFF_WAIT.
pub populate_pool : BufferPool → Bool × BufferPool
populate_pool bp = populate max_rounds buffer_amp (λ _. mk_buffer) bp

unfoldable pub init_pool : BufferPool
init_pool = init max_rounds buffer_amp (λ _. mk_buffer)

unfoldable pub get_buffer : BufferPool → Attempt Buffer
get_buffer bp = get max_rounds buffer_amp (λ _. mk_buffer) bp

-- A waiting call that has been signalled.
unfoldable pub wait_for_free_buffer : BufferPool → Attempt Buffer
wait_for_free_buffer bp = wait_then_scan bp

-- `none` where it calls `abort`.
unfoldable pub join_buffer : BufferPool → ℕ → Option BufferPool
join_buffer bp b = join zero_buffer b bp

unfoldable pub IsPool : BufferPool → Type 0
IsPool bp = IsSound max_rounds buffer_amp bp

-- The initial pool is a sound one: its counters are the numbers of its entries and of those in use,
-- its pointers are distinct, and it has at most MAX_BUFFERS entries.
pub init_pool-IsPool : IsPool init_pool
unfolding IsPool init_pool
init_pool-IsPool = init-IsSound 15 3 (λ _. mk_buffer)

-- From a sound pool, `get_buffer` never gives NULL. Either all MAX_BUFFERS buffers are in use and
-- the call waits, with the pool as it was; or it hands out a buffer that nobody held, exactly that
-- buffer is held in addition to those that were, and the pool stays sound.
pub get_buffer_lem :
    (bp : BufferPool)
    → IsPool bp
    → ((get_buffer bp ≡ waits bp) × (bp.num ≡ pos 64) × (in_use bp.pool ≡ length bp.pool))
      ⊎ ((b : ℕ) × (bp' : BufferPool) × (get_buffer bp ≡ returns (some b) bp')
          × IsPool bp'
          × (status_of b bp.pool ≢ some inuse)
          × ((c : ℕ) → Held bp' c ↔ ((c ≡ b) ⊎ Held bp c)))
unfolding IsPool get_buffer
get_buffer_lem bp s = elim (get_lem max_rounds 3 (λ _. mk_buffer) bp s) [
  | inl w ↦ inl w
  | inr (x, q, g, t, f, h, _) ↦ inr (x, q, g, t, f, h)
]

pub join_buffer_lem :
    (bp : BufferPool) (b : ℕ)
    → IsPool bp
    → Held bp b
    → (bp' : BufferPool) × (join_buffer bp b ≡ some bp')
      × IsPool bp'
      × ((c : ℕ) → Held bp' c ↔ ((c ≢ b) × Held bp c))
      × ((d : ℕ) × (bp'' : BufferPool) × (wait_for_free_buffer bp' ≡ returns (some d) bp'')
          × IsPool bp'')
unfolding IsPool join_buffer wait_for_free_buffer
join_buffer_lem bp b s held =
    let (bp', j, t, l, h, _) = join_lem max_rounds buffer_amp zero_buffer b bp s held in
    let (d, bp'', w, u) = wait_then_scan_lem max_rounds buffer_amp bp' t l in
    (bp', j, t, h, (d, bp'', w, u))

-- Giving back a pointer that is not held, a second time for instance, ends the program.
pub join_buffer-aborts :
    (bp : BufferPool) (b : ℕ) → status_of b bp.pool ≢ some inuse → join_buffer bp b ≡ none
unfolding join_buffer
join_buffer-aborts bp b h = join-aborts zero_buffer b bp h
