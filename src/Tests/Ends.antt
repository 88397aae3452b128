-- ===== src/Tests/Ends.antt =====
-- Rounds of the main thread, the threads, and jobs that are done.
use ttracker.Base.{ℕ, ◌≡◌, ◌≢◌, ◌↔◌, refl, false, Bool, some, none, [], ◌∷◌, arith}
use ttracker.Base.Int.{ℤ, pos, negsuc}
use ttracker.Pool.{Pool}
use ttracker.Pool.Sound.{Held}
use ttracker.BufferPool.{BufferPool, IsPool}
use ttracker.TdPool.{IsTdPool}
use ttracker.Server.{start, begin}
use ttracker.Events.{Accepted, client, interrupted, ready, runq_events}
use ttracker.Events.Rounds.{Does, runq_events_lem}
use ttracker.Threads.{
  Spawned, runs, init_threads, spawn_loop, insert_tail, insert_thread, cleanup_server,
}
use ttracker.Threads.End.{init_threads-cleanup}
use ttracker.Heap.{null, put, done}
use ttracker.Heap.Overlay.{overlay, AreFresh}
use ttracker.Tests.Pools.{four, four-IsPool, four_td, four_td-IsTdPool}
use ttracker.Tests.Frees.{nothing, are_fresh-AreFresh}
use ttracker.Free.Jobs.{Finishing, job_complete, job_objects}
use ttracker.Free.Jobs.Complete.{job_complete_lem}

-- The first call of accept is interrupted.
abbrev second : ℕ → Accepted
second ℕ.zero = interrupted
second (ℕ.suc n) = client 7 80

runq_events_lem_example : Does start second 3 ready (runq_events second 3 ready start.shared)
runq_events_lem_example = runq_events_lem second 3 ready begin

-- The creation of the third thread fails at first.
abbrev third_fails : ℕ → ℤ
third_fails ℕ.zero = pos 0
third_fails (ℕ.suc ℕ.zero) = pos 0
third_fails (ℕ.suc (ℕ.suc ℕ.zero)) = negsuc 0
third_fails (ℕ.suc (ℕ.suc (ℕ.suc n))) = pos 0

abbrev eight : Spawned
eight = record { th_list = 0 ∷ 4 ∷ 1 ∷ 5 ∷ 2 ∷ 6 ∷ 3 ∷ 7 ∷ []; looped = false; th_count = 8 }

eight-runs : init_threads third_fails ≡ runs eight
unfolding init_threads spawn_loop insert_thread insert_tail
eight-runs = refl

init_threads-cleanup_example :
    cleanup_server
      (λ _. false)
      Bool.true
      eight.th_list
      (record { spawned = eight; allocated = Bool.true })
    ≡ none
init_threads-cleanup_example = init_threads-cleanup third_fails (λ _. false) eight eight-runs

-- A job with a pair and without hashes, whose buffer and thread data are both at 3 of their pools.
abbrev finishing : Finishing
finishing = record {
  job = 1;
  type = 0;
  status = 200;
  peer = 0;
  out = 3;
  pairs = 2;
  keyvals = record { at = 4; words = 5 ∷ [] } ∷ [];
  peer_req = 5;
  hashlist = none;
  hashes = [];
  fields = [];
  td = 3;
  sq = 9;
  client = 7;
  links = 8 ∷ 8 ∷ [];
}

finishing-fresh : AreFresh (job_objects finishing) nothing
unfolding put
finishing-fresh = are_fresh-AreFresh (job_objects finishing) refl

job_complete_lem_example :
    (bufs' : BufferPool) × (tds' : Pool ℕ) × (job_complete 3 four four_td 1
        (overlay (job_objects finishing) nothing)
      ≡ done
          (record { bufs = bufs'; tds = tds'; closed = some 7 })
          (overlay ((3, null ∷ 7 ∷ 8 ∷ 8 ∷ []) ∷ []) nothing))
    × IsPool bufs'
    × ((b : ℕ) → Held bufs' b ↔ ((b ≢ 3) × Held four b))
    × IsTdPool tds'
    × ((t : ℕ) → Held tds' t ↔ ((t ≢ 3) × Held four_td t))
job_complete_lem_example =
    job_complete_lem finishing 3 four four_td nothing (omega arith) (omega arith) (omega arith)
      finishing-fresh four-IsPool refl four_td-IsTdPool refl
