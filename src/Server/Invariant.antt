-- ===== src/Server/Invariant.antt =====
-- What the threads hold, and that the pools have handed out exactly that. What is held is weighed: a
-- weight of 1 for every pointer counts it, and the indicator of a pointer tells how often that is
-- held.
use ttracker.Base.{ℕ, ◌+◌, ◌≡◌, refl, some, [], ◌∷◌, arith}
use ttracker.Pool.{Pool, returns}
use ttracker.Pool.Weights.{weigh}
use ttracker.BufferPool.{BufferPool, IsPool, get_buffer, join_buffer}
use ttracker.TdPool.{IsTdPool, join_td}
use ttracker.WorkQueue.{enqueue_job}
use ttracker.Server.{
  Shared, Producer, idle, opened, reading, failing, answering, answered, refused, closing, prepared,
  enqueued, Worker, resting, working, responding, completing, leaving, Produces, take_td,
  take_input, refuse, take_message, take_answer, join_answer, join_message, join_refused, close_td,
  take_output, enqueue, join_input, Works, take_job, take_response, join_response, join_output,
  join_client,
}
use ttracker.Server.Counts.{
  get_buffer-count, join_buffer-count, join_td-count, total, total-append, td_list_deq-total,
  deq_job-total,
}

-- The buffers and the thread data of a thread.
abbrev pub bufs_of : (ℕ → ℕ) → Producer → ℕ
bufs_of f idle = 0
bufs_of f (opened td) = 0
bufs_of f (reading td b) = f b
bufs_of f (failing td b e) = f b + f e
bufs_of f (answering td b e c) = f b + f e + f c
bufs_of f (answered td b e) = f b + f e
bufs_of f (refused td b) = f b
bufs_of f (closing td) = 0
bufs_of f (prepared td b out) = f b + f out
bufs_of f (enqueued b) = f b

abbrev pub tds_of : (ℕ → ℕ) → Producer → ℕ
tds_of f idle = 0
tds_of f (opened td) = f td
tds_of f (reading td b) = f td
tds_of f (failing td b e) = f td
tds_of f (answering td b e c) = f td
tds_of f (answered td b e) = f td
tds_of f (refused td b) = f td
tds_of f (closing td) = f td
tds_of f (prepared td b out) = f td
tds_of f (enqueued b) = 0

abbrev pub worker_bufs : (ℕ → ℕ) → Worker → ℕ
worker_bufs f resting = 0
worker_bufs f (working td out) = f out
worker_bufs f (responding td out c) = f out + f c
worker_bufs f (completing td out) = f out
worker_bufs f (leaving td) = 0

abbrev pub worker_tds : (ℕ → ℕ) → Worker → ℕ
worker_tds f resting = 0
worker_tds f (working td out) = f td
worker_tds f (responding td out c) = f td
worker_tds f (completing td out) = f td
worker_tds f (leaving td) = f td

-- Of a job.
abbrev pub job_td : (ℕ → ℕ) → ℕ × ℕ → ℕ
job_td f (td, out) = f td

abbrev pub job_buf : (ℕ → ℕ) → ℕ × ℕ → ℕ
job_buf f (td, out) = f out

-- Sound pools, in which the buffers are in use that the jobs and the threads have, and the thread
-- data that wait and that the jobs and the threads have.
pub record IsCounted (s : Shared) (bufs tds : (ℕ → ℕ) → ℕ) : Type 0 where
  pub sound_bufs : IsPool s.bufs
  pub sound_tds : IsTdPool s.tds
  pub bufs_used : (f : ℕ → ℕ) → weigh f s.bufs.pool ≡ bufs f + total (job_buf f) s.jobs
  pub tds_used :
      (f : ℕ → ℕ) → weigh f s.tds.pool ≡ tds f + total f s.waiting + total (job_td f) s.jobs

module _ {s : Shared} {n k : (ℕ → ℕ) → ℕ} where
  after_get :
      (b : ℕ) (bp : BufferPool)
      → get_buffer s.bufs ≡ returns (some b) bp
      → IsCounted s n k
      → IsCounted (record s { bufs = bp }) (λ f. n f + f b) k
  after_get b bp h v =
      let (sound, c) = get_buffer-count s.bufs bp b v.sound_bufs h in
      record {
        sound_bufs = sound;
        sound_tds = v.sound_tds;
        bufs_used = λ f. omega (arith, c f, v.bufs_used f);
        tds_used = v.tds_used;
      }

  after_join :
      (b : ℕ) (bp : BufferPool)
      → join_buffer s.bufs b ≡ some bp
      → IsCounted s (λ f. n f + f b) k
      → IsCounted (record s { bufs = bp }) n k
  after_join b bp h v =
      let (sound, c) = join_buffer-count s.bufs bp b v.sound_bufs h in
      record {
        sound_bufs = sound;
        sound_tds = v.sound_tds;
        bufs_used = λ f. omega (arith, c f, v.bufs_used f);
        tds_used = v.tds_used;
      }

  after_join_td :
      (td : ℕ) (tds : Pool ℕ)
      → join_td s.tds td ≡ some tds
      → IsCounted s n (λ f. k f + f td)
      → IsCounted (record s { tds = tds }) n k
  after_join_td td tds h v =
      let (sound, c) = join_td-count s.tds tds td v.sound_tds h in
      record {
        sound_bufs = v.sound_bufs;
        sound_tds = sound;
        bufs_used = v.bufs_used;
        tds_used = λ f. omega (arith, c f, v.tds_used f);
      }

  pub recount :
      {m l : (ℕ → ℕ) → ℕ}
      → ((f : ℕ → ℕ) → n f ≡ m f)
      → ((f : ℕ → ℕ) → k f ≡ l f)
      → IsCounted s n k
      → IsCounted s m l
  recount e d v = record {
    sound_bufs = v.sound_bufs;
    sound_tds = v.sound_tds;
    bufs_used = λ f. omega (arith, e f, v.bufs_used f);
    tds_used = λ f. omega (arith, d f, v.tds_used f);
  }

-- A call of a producer, beside what the other threads have.
pub Produces-IsCounted :
    {s s' : Shared} {p p' : Producer} (n k : (ℕ → ℕ) → ℕ)
    → Produces s p s' p'
    → IsCounted s (λ f. n f + bufs_of f p) (λ f. k f + tds_of f p)
    → IsCounted s' (λ f. n f + bufs_of f p') (λ f. k f + tds_of f p')
unfolding enqueue_job
Produces-IsCounted {s} n k (take_td td rest h) v = record {
  sound_bufs = v.sound_bufs;
  sound_tds = v.sound_tds;
  bufs_used = v.bufs_used;
  tds_used = λ f. omega (arith, v.tds_used f, td_list_deq-total s.waiting rest td f h);
}
Produces-IsCounted n k (take_input td b bp h) v =
    recount (λ f. omega arith) (λ f. refl) (after_get b bp h v)
Produces-IsCounted n k (refuse td b) v = v
Produces-IsCounted n k (take_message td b e bp h) v =
    recount (λ f. omega arith) (λ f. refl) (after_get e bp h v)
Produces-IsCounted n k (take_answer td b e c bp h) v =
    recount (λ f. omega arith) (λ f. refl) (after_get c bp h v)
Produces-IsCounted n k (join_answer td b e c bp h) v =
    after_join c bp h (recount (λ f. omega arith) (λ f. refl) v)
Produces-IsCounted n k (join_message td b e bp h) v =
    after_join e bp h (recount (λ f. omega arith) (λ f. refl) v)
Produces-IsCounted n k (join_refused td b bp h) v =
    after_join b bp h (recount (λ f. omega arith) (λ f. refl) v)
Produces-IsCounted n k (close_td td tds h) v =
    after_join_td td tds h (recount (λ f. refl) (λ f. omega arith) v)
Produces-IsCounted n k (take_output td b out bp h) v =
    recount (λ f. omega arith) (λ f. refl) (after_get out bp h v)
Produces-IsCounted {s} n k (enqueue td b out) v = record {
  sound_bufs = v.sound_bufs;
  sound_tds = v.sound_tds;
  bufs_used = λ f. omega (arith, v.bufs_used f, total-append (job_buf f) s.jobs ((td, out) ∷ []));
  tds_used = λ f. omega (arith, v.tds_used f, total-append (job_td f) s.jobs ((td, out) ∷ []));
}
Produces-IsCounted n k (join_input b bp h) v =
    after_join b bp h (recount (λ f. omega arith) (λ f. refl) v)

-- A call of a worker, likewise.
pub Works-IsCounted :
    {s s' : Shared} {w w' : Worker} (n k : (ℕ → ℕ) → ℕ)
    → Works s w s' w'
    → IsCounted s (λ f. n f + worker_bufs f w) (λ f. k f + worker_tds f w)
    → IsCounted s' (λ f. n f + worker_bufs f w') (λ f. k f + worker_tds f w')
Works-IsCounted {s} n k (take_job td out rest h) v = record {
  sound_bufs = v.sound_bufs;
  sound_tds = v.sound_tds;
  bufs_used = λ f. omega (arith, v.bufs_used f, deq_job-total s.jobs rest (td, out) (job_buf f) h);
  tds_used = λ f. omega (arith, v.tds_used f, deq_job-total s.jobs rest (td, out) (job_td f) h);
}
Works-IsCounted n k (take_response td out c bp h) v =
    recount (λ f. omega arith) (λ f. refl) (after_get c bp h v)
Works-IsCounted n k (join_response td out c bp h) v =
    after_join c bp h (recount (λ f. omega arith) (λ f. refl) v)
Works-IsCounted n k (join_output td out bp h) v =
    after_join out bp h (recount (λ f. omega arith) (λ f. refl) v)
Works-IsCounted n k (join_client td tds h) v =
    after_join_td td tds h (recount (λ f. refl) (λ f. omega arith) v)
