-- ===== src/Tests/Pools.antt =====
-- The pools and the queues after a few calls.
use ttracker.Base.{ℕ, ◌≡◌, ◌≢◌, ◌⊎◌, ◌↔◌, refl, some, List, [], ◌∷◌, ◌++◌, length, arith}
use ttracker.Base.Int.{pos}
use ttracker.Buffer.{mk_buffer}
use ttracker.Pool.{Pool, waits, returns, status_of, inuse, free, in_use}
use ttracker.Pool.Sound.{Held}
use ttracker.BufferPool.{
  BufferPool, init_pool, get_buffer, IsPool, init_pool-IsPool, get_buffer_lem,
}
use ttracker.TdPool.{IsTdPool}
use ttracker.WorkQueue.{enqueue_job, deq_job}
use ttracker.WorkQueue.Order.{Calls, Calls-fifo}

get_buffer_lem_example :
    ((get_buffer init_pool ≡ waits init_pool)
      × (init_pool.num ≡ pos 64)
      × (in_use init_pool.pool ≡ length init_pool.pool))
    ⊎ ((b : ℕ) × (bp' : BufferPool) × (get_buffer init_pool ≡ returns (some b) bp')
        × IsPool bp'
        × (status_of b init_pool.pool ≢ some inuse)
        × ((c : ℕ) → Held bp' c ↔ ((c ≡ b) ⊎ Held init_pool c)))
get_buffer_lem_example = get_buffer_lem init_pool init_pool-IsPool

-- A pool of four buffers, the first one handed out.
abbrev pub four : BufferPool
four = record {
  pool =
      record { ptr = 3; item = mk_buffer; status = inuse }
      ∷ record { ptr = 2; item = mk_buffer; status = free }
      ∷ record { ptr = 1; item = mk_buffer; status = free }
      ∷ record { ptr = 0; item = mk_buffer; status = free }
      ∷ [];
  inuse_count = pos 1;
  num = pos 4;
  next = 4;
}

pub four-IsPool : IsPool four
unfolding IsPool
four-IsPool = (omega arith, omega arith, refl, refl, (1, omega arith, refl))

abbrev pub four_td : Pool ℕ
four_td = record {
  pool =
      record { ptr = 3; item = 10; status = inuse }
      ∷ record { ptr = 2; item = 10; status = free }
      ∷ record { ptr = 1; item = 10; status = free }
      ∷ record { ptr = 0; item = 10; status = free }
      ∷ [];
  inuse_count = pos 1;
  num = pos 4;
  next = 4;
}

pub four_td-IsTdPool : IsTdPool four_td
unfolding IsTdPool
four_td-IsTdPool = (omega arith, omega arith, refl, refl, (1, omega arith, refl))

abbrev first_job : List ℕ
first_job = 1 ∷ []

abbrev second_job : List ℕ
second_job = 2 ∷ []

-- One job comes, is taken, and another comes.
Calls-fifo_example : first_job ++ second_job ≡ [] ++ (first_job ++ second_job)
unfolding enqueue_job deq_job
Calls-fifo_example =
    Calls-fifo (Calls.enqueues 2 (Calls.dequeues 1 (Calls.enqueues 1 (Calls.start [])) refl))
