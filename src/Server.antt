-- ===== src/Server.antt =====
-- The threads of main.c with what they take from the pools and queues: `runq_events` accepts a
-- client, `handle_req` reads its request with `http_handle_read` of http.c, and `handle_jobs`
-- answers it and ends with `job_complete` of work.c. A run of the threads is a sequence of steps,
-- each one call that holds a mutex; what happens between two calls is the thread's own. The end of
-- the program is left out.
pub mod Counts
pub mod Invariant
pub mod Running
pub mod Safety
use ttracker.Base.{ℕ, ◌≡◌, ◌==◌, if◌then◌else◌, Bool, true, Option, none, some, List, [], ◌∷◌, ◌++◌}
use ttracker.Pool.{Pool, returns}
use ttracker.BufferPool.{BufferPool, get_buffer, join_buffer, init_pool}
use ttracker.TdPool.{get_td, join_td, init_td_pool}
use ttracker.WorkQueue.{enqueue_job, deq_job, td_enqueue, td_list_deq}

-- What the main thread writes into thread data: the client and its address, and whether sq and bp are
-- those of the server. The pool of thread data sets tp.
pub record ThreadData : Type 0 where
  pub client : ℕ
  pub clientaddr : ℕ
  pub sq : Bool
  pub bp : Bool

-- What the threads share. A job is its thread data and its output buffer. `written` is what stands
-- in thread data, by their address; the pool of them does not look at it.
pub record Shared : Type 0 where
  pub bufs : BufferPool
  pub tds : Pool ℕ
  pub waiting : List ℕ
  pub jobs : List (ℕ × ℕ)
  pub written : ℕ → Option ThreadData

-- The four stores into thread data, old or new.
unfoldable pub write_td : (td client addr : ℕ) → (ℕ → Option ThreadData) → ℕ → Option ThreadData
write_td td client addr written p =
    if p == td
    then some (record { client = client; clientaddr = addr; sq = true; bp = true })
    else written p

-- Where a thread of `handle_req` stands, with the thread data and the buffers that it holds: its
-- input `b`, the message `e` of `http_error`, the response `c` to that, and the output `out` of a
-- new job.
pub data Producer : Type 0 where
  idle : Producer
  opened : ℕ → Producer
  reading : (td b : ℕ) → Producer
  failing : (td b e : ℕ) → Producer
  answering : (td b e c : ℕ) → Producer
  answered : (td b e : ℕ) → Producer
  refused : (td b : ℕ) → Producer
  closing : ℕ → Producer
  prepared : (td b out : ℕ) → Producer
  enqueued : ℕ → Producer

-- Where a thread of `handle_jobs` stands; `c` is the buffer of `http_response`.
pub data Worker : Type 0 where
  resting : Worker
  working : (td out : ℕ) → Worker
  responding : (td out c : ℕ) → Worker
  completing : (td out : ℕ) → Worker
  leaving : ℕ → Worker

-- One call of a thread of `handle_req`.
pub data Produces (s : Shared) : Producer → Shared → Producer → Type 0 where
  take_td :
      (td : ℕ) (rest : List ℕ)
      → td_list_deq s.waiting ≡ some (td, rest)
      → Produces s idle (record s { waiting = rest }) (opened td)
  take_input :
      (td b : ℕ) (bp : BufferPool)
      → get_buffer s.bufs ≡ returns (some b) bp
      → Produces s (opened td) (record s { bufs = bp }) (reading td b)
  refuse : (td b : ℕ) → Produces s (reading td b) s (refused td b)
  take_message :
      (td b e : ℕ) (bp : BufferPool)
      → get_buffer s.bufs ≡ returns (some e) bp
      → Produces s (reading td b) (record s { bufs = bp }) (failing td b e)
  take_answer :
      (td b e c : ℕ) (bp : BufferPool)
      → get_buffer s.bufs ≡ returns (some c) bp
      → Produces s (failing td b e) (record s { bufs = bp }) (answering td b e c)
  join_answer :
      (td b e c : ℕ) (bp : BufferPool)
      → join_buffer s.bufs c ≡ some bp
      → Produces s (answering td b e c) (record s { bufs = bp }) (answered td b e)
  join_message :
      (td b e : ℕ) (bp : BufferPool)
      → join_buffer s.bufs e ≡ some bp
      → Produces s (answered td b e) (record s { bufs = bp }) (refused td b)
  join_refused :
      (td b : ℕ) (bp : BufferPool)
      → join_buffer s.bufs b ≡ some bp
      → Produces s (refused td b) (record s { bufs = bp }) (closing td)
  close_td :
      (td : ℕ) (tds : Pool ℕ)
      → join_td s.tds td ≡ some tds
      → Produces s (closing td) (record s { tds = tds }) idle
  take_output :
      (td b out : ℕ) (bp : BufferPool)
      → get_buffer s.bufs ≡ returns (some out) bp
      → Produces s (reading td b) (record s { bufs = bp }) (prepared td b out)
  enqueue :
      (td b out : ℕ)
      → Produces s
          (prepared td b out)
          (record s { jobs = enqueue_job s.jobs (td, out) })
          (enqueued b)
  join_input :
      (b : ℕ) (bp : BufferPool)
      → join_buffer s.bufs b ≡ some bp
      → Produces s (enqueued b) (record s { bufs = bp }) idle

-- One call of a thread of `handle_jobs`.
pub data Works (s : Shared) : Worker → Shared → Worker → Type 0 where
  take_job :
      (td out : ℕ) (rest : List (ℕ × ℕ))
      → deq_job s.jobs ≡ some ((td, out), rest)
      → Works s resting (record s { jobs = rest }) (working td out)
  take_response :
      (td out c : ℕ) (bp : BufferPool)
      → get_buffer s.bufs ≡ returns (some c) bp
      → Works s (working td out) (record s { bufs = bp }) (responding td out c)
  join_response :
      (td out c : ℕ) (bp : BufferPool)
      → join_buffer s.bufs c ≡ some bp
      → Works s (responding td out c) (record s { bufs = bp }) (completing td out)
  join_output :
      (td out : ℕ) (bp : BufferPool)
      → join_buffer s.bufs out ≡ some bp
      → Works s (completing td out) (record s { bufs = bp }) (leaving td)
  join_client :
      (td : ℕ) (tds : Pool ℕ)
      → join_td s.tds td ≡ some tds
      → Works s (leaving td) (record s { tds = tds }) resting

pub record Server : Type 0 where
  pub shared : Shared
  pub producers : List Producer
  pub workers : List Worker

-- A step of the program: the main thread accepts a client, or one of the other threads makes a call.
pub data Step : Server → Server → Type 0 where
  accept :
      (s : Shared) (ps : List Producer) (ws : List Worker) (client addr td : ℕ) (tds : Pool ℕ)
      → get_td 0 s.tds ≡ returns (some td) tds
      → Step
          (record { shared = s; producers = ps; workers = ws })
          (record {
            shared = record s {
              tds = tds;
              waiting = td_enqueue s.waiting td;
              written = write_td td client addr s.written;
            };
            producers = ps;
            workers = ws;
          })
  produce :
      {s s' : Shared} {p p' : Producer} (ps qs : List Producer) (ws : List Worker)
      → Produces s p s' p'
      → Step
          (record { shared = s; producers = ps ++ p ∷ qs; workers = ws })
          (record { shared = s'; producers = ps ++ p' ∷ qs; workers = ws })
  work :
      {s s' : Shared} {w w' : Worker} (ps : List Producer) (vs ws : List Worker)
      → Works s w s' w'
      → Step
          (record { shared = s; producers = ps; workers = vs ++ w ∷ ws })
          (record { shared = s'; producers = ps; workers = vs ++ w' ∷ ws })

-- The state after `server_init_globals` and `server_init_threads`: MAX_THREADS/2 threads of each
-- kind.
unfoldable pub start : Server
start = record {
  shared = record {
    bufs = init_pool;
    tds = init_td_pool 0;
    waiting = [];
    jobs = [];
    written = λ _. none;
  };
  producers = idle ∷ idle ∷ idle ∷ idle ∷ [];
  workers = resting ∷ resting ∷ resting ∷ resting ∷ [];
}

pub data Reach : Server → Type 0 where
  begin : Reach start
  next : {s s' : Server} → Reach s → Step s s' → Reach s'
