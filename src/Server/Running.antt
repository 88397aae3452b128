-- ===== src/Server/Running.antt =====
-- The invariant of the whole program, by induction on the steps.
use ttracker.Base.{ℕ, ◌+◌, ◌≡◌, refl, ◌∙◌, List, ◌∷◌, ◌++◌, length, length-append, arith}
use ttracker.BufferPool.{init_pool-IsPool}
use ttracker.TdPool.{init_td_pool-IsTdPool}
use ttracker.WorkQueue.{td_enqueue}
use ttracker.Server.{Server, Step, accept, produce, work, start, Reach, begin, next}
use ttracker.Server.Counts.{get_td-count, total, total-append, init_pool-free, init_td_pool-free}
use ttracker.Server.Invariant.{
  bufs_of, tds_of, worker_bufs, worker_tds, IsCounted, recount, Produces-IsCounted, Works-IsCounted,
}

-- MAX_THREADS/2 threads of each kind, and pools that have handed out what all of them have.
pub record IsRunning (v : Server) : Type 0 where
  pub counted :
      IsCounted v.shared
        (λ f. total (bufs_of f) v.producers + total (worker_bufs f) v.workers)
        (λ f. total (tds_of f) v.producers + total (worker_tds f) v.workers)
  pub four_producers : length v.producers ≡ 4
  pub four_workers : length v.workers ≡ 4

length-middle {ℓ} :
    {A : Type ℓ} (xs ys : List A) (x y : A) → length (xs ++ x ∷ ys) ≡ length (xs ++ y ∷ ys)
length-middle xs ys x y = omega (arith, length-append xs (x ∷ ys), length-append xs (y ∷ ys))

Step-IsRunning : {v v' : Server} → Step v v' → IsRunning v → IsRunning v'
unfolding td_enqueue
Step-IsRunning (accept s ps ws client addr td tds h) r =
    let c = r.counted in
    let (sound, more) = get_td-count 0 s.tds tds td c.sound_tds h in
    record {
      counted = record {
        sound_bufs = c.sound_bufs;
        sound_tds = sound;
        bufs_used = c.bufs_used;
        tds_used = λ f. omega (arith, more f, c.tds_used f);
      };
      four_producers = r.four_producers;
      four_workers = r.four_workers;
    }
Step-IsRunning (produce {s} {s'} {p} {p'} ps qs ws h) r =
    let n : (ℕ → ℕ) → ℕ =
      λ f. total (bufs_of f) ps + total (bufs_of f) qs + total (worker_bufs f) ws in
    let k : (ℕ → ℕ) → ℕ =
      λ f. total (tds_of f) ps + total (tds_of f) qs + total (worker_tds f) ws in
    let c : IsCounted s (λ f. n f + bufs_of f p) (λ f. k f + tds_of f p) =
      recount (λ f. omega (arith, total-append (bufs_of f) ps (p ∷ qs)))
        (λ f. omega (arith, total-append (tds_of f) ps (p ∷ qs))) r.counted in
    record {
      counted =
          recount (λ f. omega (arith, total-append (bufs_of f) ps (p' ∷ qs)))
            (λ f. omega (arith, total-append (tds_of f) ps (p' ∷ qs))) (Produces-IsCounted n k h c);
      four_producers = length-middle ps qs p' p ∙ r.four_producers;
      four_workers = r.four_workers;
    }
Step-IsRunning (work {s} {s'} {w} {w'} ps vs ws h) r =
    let n : (ℕ → ℕ) → ℕ =
      λ f. total (bufs_of f) ps + (total (worker_bufs f) vs + total (worker_bufs f) ws) in
    let k : (ℕ → ℕ) → ℕ =
      λ f. total (tds_of f) ps + (total (worker_tds f) vs + total (worker_tds f) ws) in
    let c : IsCounted s (λ f. n f + worker_bufs f w) (λ f. k f + worker_tds f w) =
      recount (λ f. omega (arith, total-append (worker_bufs f) vs (w ∷ ws)))
        (λ f. omega (arith, total-append (worker_tds f) vs (w ∷ ws))) r.counted in
    record {
      counted =
          recount (λ f. omega (arith, total-append (worker_bufs f) vs (w' ∷ ws)))
            (λ f. omega (arith, total-append (worker_tds f) vs (w' ∷ ws)))
            (Works-IsCounted n k h c);
      four_producers = r.four_producers;
      four_workers = length-middle vs ws w' w ∙ r.four_workers;
    }

start-IsRunning : IsRunning start
unfolding start
start-IsRunning = record {
  counted = record {
    sound_bufs = init_pool-IsPool;
    sound_tds = init_td_pool-IsTdPool 0;
    bufs_used = init_pool-free;
    tds_used = init_td_pool-free;
  };
  four_producers = refl;
  four_workers = refl;
}

-- In every reachable state both pools are sound, the buffers in use are those of the jobs and of the
-- threads, and the thread data in use are those that wait, those of the jobs and those of the
-- threads.
pub Reach-IsRunning : {v : Server} → Reach v → IsRunning v
Reach-IsRunning begin = start-IsRunning
Reach-IsRunning (next r s) = Step-IsRunning s (Reach-IsRunning r)
