-- ===== src/Tests/Threads.antt =====
-- Threads at work.
use ttracker.Base.{ℕ, ◌≤◌, ◌<◌, ◌≡◌, refl, some, [], ◌∷◌}
use ttracker.Base.Int.{◌-ℤ◌, ◌+ℤ◌}
use ttracker.Pool.{
  Pool, Attempt, waits, returns, init, populate, insert_fresh, get, scan, take_free, in_use,
}
use ttracker.BufferPool.{BufferPool, init_pool, get_buffer, join_buffer}
use ttracker.Buffer.{Buffer}
use ttracker.TdPool.{init_td_pool, get_td}
use ttracker.WorkQueue.{td_enqueue, td_list_deq}
use ttracker.Server.{
  Server, write_td, idle, reading, start, Reach, begin, next, accept, produce, take_td, take_input,
}
use ttracker.Server.Safety.{Reach-get_buffer, Reach-join_buffer, holders}

abbrev left_by : Attempt ℕ → Pool ℕ
left_by (waits p) = p
left_by (returns r p) = p

-- The pool that has handed out thread data for a client, at the pointer 3.
abbrev one_client : Pool ℕ
one_client = left_by (get_td 0 (init_td_pool 0))

one_client-td : get_td 0 (init_td_pool 0) ≡ returns (some 3) one_client
unfolding get_td init_td_pool init populate insert_fresh get scan take_free ◌-ℤ◌ ◌+ℤ◌
one_client-td = refl

abbrev accepted : Server
accepted = record start {
  shared = record start.shared {
    tds = one_client;
    waiting = td_enqueue start.shared.waiting 3;
    written = write_td 3 7 80 start.shared.written;
  };
}

accepted-Reach : Reach accepted
unfolding start
accepted-Reach = next begin (accept _ _ _ 7 80 3 one_client one_client-td)

Reach-get_buffer_example :
    (in_use accepted.shared.bufs.pool ≤ 32)
    × ((b : ℕ) × (bp : BufferPool) × (get_buffer accepted.shared.bufs ≡ returns (some b) bp))
Reach-get_buffer_example = Reach-get_buffer accepted-Reach

-- A thread has taken the client, and a buffer for its request.
abbrev bufs_taken : Attempt Buffer → BufferPool
bufs_taken (waits p) = p
bufs_taken (returns r p) = p

abbrev reading_one : Server
reading_one = record accepted {
  shared = record accepted.shared { bufs = bufs_taken (get_buffer init_pool); waiting = [] };
  producers = reading 3 3 ∷ idle ∷ idle ∷ idle ∷ [];
}

one_buffer : get_buffer init_pool ≡ returns (some 3) (bufs_taken (get_buffer init_pool))
unfolding get_buffer init_pool init populate insert_fresh get scan take_free ◌-ℤ◌ ◌+ℤ◌
one_buffer = refl

reading_one-Reach : Reach reading_one
unfolding start td_enqueue td_list_deq
reading_one-Reach =
    next (next accepted-Reach (produce [] _ _ (take_td 3 [] refl)))
      (produce [] _ _ (take_input 3 3 (bufs_taken (get_buffer init_pool)) one_buffer))

Reach-join_buffer_example :
    (holders 3 reading_one ≤ 1)
    × (0 < holders 3 reading_one
        → (bp : BufferPool) × (join_buffer reading_one.shared.bufs 3 ≡ some bp))
Reach-join_buffer_example = Reach-join_buffer 3 reading_one-Reach
