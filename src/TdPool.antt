-- ===== src/TdPool.antt =====
-- td_pool.c: the pool of thread data, which is made like the buffer pool but with room for 16. What
-- is in a `struct thread_data` is no matter of the pool.
use ttracker.Base.{inl, inr, ℕ, ◌≡◌, ◌≢◌, ◌⊎◌, ◌↔◌, Option, some, Bool, length}
use ttracker.Base.Int.{pos}
use ttracker.Pool.{
  Pool, Attempt, waits, returns, populate, init, get, join, wait_then_scan, in_use, status_of,
  inuse,
}
use ttracker.Pool.Sound.{IsSound, Held, init-IsSound, get_lem, join_lem, wait_then_scan_lem}

-- TD_POOL_AMP; TD_POOL_MAX_TD is `max_td_rounds` times that.
abbrev pub td_pool_amp : ℕ
td_pool_amp = 4

abbrev pub max_td_rounds : ℕ
max_td_rounds = 4

-- `A` is the thread data; `fresh` is what malloc gives.
module _ {ℓ} {A : Type ℓ} where
  pub populate_td_pool : A → Pool A → Bool × Pool A
  populate_td_pool fresh tdp = populate max_td_rounds td_pool_amp (λ _. fresh) tdp

  unfoldable pub init_td_pool : A → Pool A
  init_td_pool fresh = init max_td_rounds td_pool_amp (λ _. fresh)

  unfoldable pub get_td : A → Pool A → Attempt A
  get_td fresh tdp = get max_td_rounds td_pool_amp (λ _. fresh) tdp

  -- A waiting call that has been signalled.
  unfoldable pub wait_for_free_td : Pool A → Attempt A
  wait_for_free_td tdp = wait_then_scan tdp

  -- The thread data is not reset.
  unfoldable pub join_td : Pool A → ℕ → Option (Pool A)
  join_td tdp td = join (λ x. x) td tdp

  unfoldable pub IsTdPool : Pool A → Type ℓ
  IsTdPool tdp = IsSound max_td_rounds td_pool_amp tdp

  -- The initial pool of thread data is sound.
  pub init_td_pool-IsTdPool : (fresh : A) → IsTdPool (init_td_pool fresh)
  unfolding IsTdPool init_td_pool
  init_td_pool-IsTdPool fresh = init-IsSound 3 3 (λ _. fresh)

  -- From a sound pool, `get_td` never gives NULL. Either all TD_POOL_MAX_TD entries are in use and
  -- the call waits, with the pool as it was; or it hands out thread data that nobody held, exactly
  -- that is held in addition to what was, and the pool stays sound.
  pub get_td_lem :
      (fresh : A) (tdp : Pool A)
      → IsTdPool tdp
      → ((get_td fresh tdp ≡ waits tdp) × (tdp.num ≡ pos 16) × (in_use tdp.pool ≡ length tdp.pool))
        ⊎ ((td : ℕ) × (tdp' : Pool A) × (get_td fresh tdp ≡ returns (some td) tdp')
            × IsTdPool tdp'
            × (status_of td tdp.pool ≢ some inuse)
            × ((c : ℕ) → Held tdp' c ↔ ((c ≡ td) ⊎ Held tdp c)))
  unfolding IsTdPool get_td
  get_td_lem fresh tdp s = elim (get_lem max_td_rounds 3 (λ _. fresh) tdp s) [
    | inl w ↦ inl w
    | inr (x, q, g, t, f, h, _) ↦ inr (x, q, g, t, f, h)
  ]

  -- Giving back thread data that is held makes exactly that free and keeps the pool sound, and a
  -- call of `get_td` that waits ends at the signal.
  pub join_td_lem :
      (tdp : Pool A) (td : ℕ)
      → IsTdPool tdp
      → Held tdp td
      → (tdp' : Pool A) × (join_td tdp td ≡ some tdp')
        × IsTdPool tdp'
        × ((c : ℕ) → Held tdp' c ↔ ((c ≢ td) × Held tdp c))
        × ((d : ℕ) × (tdp'' : Pool A) × (wait_for_free_td tdp' ≡ returns (some d) tdp'')
            × IsTdPool tdp'')
  unfolding IsTdPool join_td wait_for_free_td
  join_td_lem tdp td s held =
      let (tdp', j, t, l, h, _) = join_lem max_td_rounds td_pool_amp (λ x. x) td tdp s held in
      let (d, tdp'', w, u) = wait_then_scan_lem max_td_rounds td_pool_amp tdp' t l in
      (tdp', j, t, h, (d, tdp'', w, u))
