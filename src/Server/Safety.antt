-- ===== src/Server/Safety.antt =====
-- The threads and the pool of buffers: it is large enough for them, and they share no buffer.
use ttracker.Base.{
  refl, ◌<◌, ℕ, ◌+◌, ◌*◌, ◌≤◌, ◌≡◌, inl, inr, sym, ap, ◌∙◌, some, List, [], ◌∷◌, length, arith,
}
use ttracker.Base.Int.{pos, pos_part}
use ttracker.Pool.{Pool, returns, in_use, AreDistinct}
use ttracker.BufferPool.{
  BufferPool, IsPool, get_buffer, join_buffer, get_buffer_lem, join_buffer_lem,
}
use ttracker.TdPool.{IsTdPool, join_td, join_td_lem}
use ttracker.Server.{
  Producer, idle, opened, reading, failing, answering, answered, refused, closing, prepared,
  enqueued, Worker, resting, working, responding, completing, leaving, Server, Reach,
}
use ttracker.Pool.Weights.{indicator, weigh-ones, weigh-indicator}
use ttracker.Server.Counts.{in_use-tds, total}
use ttracker.Server.Invariant.{bufs_of, tds_of, worker_bufs, worker_tds, job_buf, job_td}
use ttracker.Server.Running.{IsRunning, Reach-IsRunning}

bufs_of-le : (p : Producer) → bufs_of (λ x. 1) p ≤ 3
bufs_of-le idle = omega arith
bufs_of-le (opened td) = omega arith
bufs_of-le (reading td b) = omega arith
bufs_of-le (failing td b e) = omega arith
bufs_of-le (answering td b e c) = omega arith
bufs_of-le (answered td b e) = omega arith
bufs_of-le (refused td b) = omega arith
bufs_of-le (closing td) = omega arith
bufs_of-le (prepared td b out) = omega arith
bufs_of-le (enqueued b) = omega arith

worker_bufs-le : (w : Worker) → worker_bufs (λ x. 1) w ≤ worker_tds (λ x. 1) w + 1
worker_bufs-le resting = omega arith
worker_bufs-le (working td out) = omega arith
worker_bufs-le (responding td out c) = omega arith
worker_bufs-le (completing td out) = omega arith
worker_bufs-le (leaving td) = omega arith

producers-le : (ps : List Producer) → total (bufs_of (λ x. 1)) ps ≤ 3 * length ps
producers-le [] = omega arith
producers-le (p ∷ ps) = omega (arith, bufs_of-le p, producers-le ps)

workers-le :
    (ws : List Worker)
    → total (worker_bufs (λ x. 1)) ws ≤ total (worker_tds (λ x. 1)) ws + length ws
workers-le [] = omega arith
workers-le (w ∷ ws) = omega (arith, worker_bufs-le w, workers-le ws)

-- A job has one buffer and one thread data.
jobs-equal : (js : List (ℕ × ℕ)) → total (job_buf (λ x. 1)) js ≡ total (job_td (λ x. 1)) js
jobs-equal [] = refl
jobs-equal ((td, out) ∷ js) = omega (arith, jobs-equal js)

-- At most 32 buffers are in use: three of each of the four producers, one of each of the at most 16
-- thread data of jobs, and one more of each of the four workers.
few_buffers : (v : Server) → IsRunning v → in_use v.shared.bufs.pool ≤ 32
few_buffers v r =
    let c = r.counted in
    omega (
      arith,
      c.bufs_used (λ x. 1),
      c.tds_used (λ x. 1),
      weigh-ones v.shared.bufs.pool,
      weigh-ones v.shared.tds.pool,
      in_use-tds v.shared.tds c.sound_tds,
      jobs-equal v.shared.jobs,
      producers-le v.producers,
      workers-le v.workers,
      r.four_producers,
      r.four_workers,
    )

length-num : (bp : BufferPool) (n : ℕ) → IsPool bp → bp.num ≡ pos n → length bp.pool ≡ n
unfolding IsPool
length-num bp n (_, _, _, e, _) h = ap pos_part (sym e ∙ h)

-- In every reachable state at most 32 of the 64 output buffers are in use, so that a call of
-- `buffer_pool_get_buffer`, by whichever thread, does not wait and does not give NULL: it hands out
-- a buffer.
pub Reach-get_buffer :
    {v : Server}
    → Reach v
    → (in_use v.shared.bufs.pool ≤ 32)
      × ((b : ℕ) × (bp : BufferPool) × (get_buffer v.shared.bufs ≡ returns (some b) bp))
Reach-get_buffer {v} r =
    let run = Reach-IsRunning r in
    let few = few_buffers v run in
    let sound = run.counted.sound_bufs in
    (
      few,
      elim (get_buffer_lem v.shared.bufs sound) [
        | inl (w, n, full) ↦ absurd (omega (arith, few, full, length-num v.shared.bufs 64 sound n))
        | inr (b, bp, g, _, _, _) ↦ (b, bp, g)
      ],
    )

-- How often a buffer is held, by all jobs and threads.
abbrev pub holders : ℕ → Server → ℕ
holders b v =
    total (bufs_of (indicator b)) v.producers
    + total (worker_bufs (indicator b)) v.workers
    + total (job_buf (indicator b)) v.shared.jobs

distinct_bufs : (bp : BufferPool) → IsPool bp → AreDistinct bp.pool
unfolding IsPool
distinct_bufs bp s = s.0

-- In every reachable state no buffer is held twice, by two threads or jobs or by one, and one that
-- is held can be given back: `buffer_pool_join_buffer` finds it in use and does not abort.
pub Reach-join_buffer :
    {v : Server} (b : ℕ)
    → Reach v
    → (holders b v ≤ 1)
      × (0 < holders b v → (bp : BufferPool) × (join_buffer v.shared.bufs b ≡ some bp))
Reach-join_buffer {v} b r =
    let c = (Reach-IsRunning r).counted in
    let (l, used) =
      weigh-indicator b v.shared.bufs.pool (distinct_bufs v.shared.bufs c.sound_bufs) in
    let same = c.bufs_used (indicator b) in
    (
      omega (arith, same, l),
      λ h.
          let (bp, j, _, _, _) =
            join_buffer_lem v.shared.bufs b c.sound_bufs (used (omega (arith, same, h))) in
          (bp, j),
    )

-- How often thread data are held, by the list that waits and by all jobs and threads.
abbrev pub td_holders : ℕ → Server → ℕ
td_holders td v =
    total (tds_of (indicator td)) v.producers
    + total (worker_tds (indicator td)) v.workers
    + total (indicator td) v.shared.waiting
    + total (job_td (indicator td)) v.shared.jobs

distinct_tds : (p : Pool ℕ) → IsTdPool p → AreDistinct p.pool
unfolding IsTdPool
distinct_tds p s = s.0

-- In every reachable state no thread data are held twice, by the list that waits, by jobs or by
-- threads, so that no two threads answer the same client; and those that are held can be given back:
-- `td_pool_join_td` finds them in use and does not abort.
pub Reach-join_td :
    {v : Server} (td : ℕ)
    → Reach v
    → (td_holders td v ≤ 1)
      × (0 < td_holders td v → (tds : Pool ℕ) × (join_td v.shared.tds td ≡ some tds))
Reach-join_td {v} td r =
    let c = (Reach-IsRunning r).counted in
    let (l, used) = weigh-indicator td v.shared.tds.pool (distinct_tds v.shared.tds c.sound_tds) in
    let same = c.tds_used (indicator td) in
    (
      omega (arith, same, l),
      λ h.
          let (tds, j, _, _, _) =
            join_td_lem v.shared.tds td c.sound_tds (used (omega (arith, same, h))) in
          (tds, j),
    )
