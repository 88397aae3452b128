-- ===== src/Free/Jobs/Complete.antt =====
-- `job_complete` for a job that was worked on, and for one that stops a thread.
use ttracker.Base.{
  ℕ, ◌<◌, ◌≡◌, ◌≢◌, ◌↔◌, refl, false, some, none, [], ◌∷◌, length, arith, ◌==◌, get_elem?,
}
use ttracker.Pool.{Pool}
use ttracker.Pool.Sound.{Held}
use ttracker.BufferPool.{BufferPool, IsPool, join_buffer_lem}
use ttracker.TdPool.{IsTdPool, join_td_lem}
use ttracker.Heap.{null, Words, Heap, done}
use ttracker.Heap.Overlay.{
  overlay, AreFresh, AreFresh-set, free-first, load-middle, set_word-middle,
}
use ttracker.Free.Jobs.{
  job_stop, job_complete, Finishing, job_words, job_objects, load_type, free_request_lem,
  hashes_fresh,
}

-- For a job of a request, on a heap that has the job, its pairs, its request, the hashes of that, if
-- it has any, and the thread data, beside any objects at other addresses, with sound pools in which
-- the output buffer and the thread data are held: `job_complete` ends with each of these objects but
-- the thread data freed once, the other objects as they were, and the client closed. Exactly the
-- output buffer and the thread data are free in the pools then, which stay sound, and the thread data
-- has no queue.
-- Fuel above the number of pairs and above that of hashes is enough.
pub job_complete_lem :
    (j : Finishing) (k : ℕ) (bufs : BufferPool) (tds : Pool ℕ) (g : Heap)
    → j.type ≢ job_stop
    → length j.keyvals < k
    → length j.hashes < k
    → AreFresh (job_objects j) g
    → IsPool bufs
    → Held bufs j.out
    → IsTdPool tds
    → Held tds j.td
    → (bufs' : BufferPool) × (tds' : Pool ℕ) × (job_complete k bufs tds j.job
          (overlay (job_objects j) g)
        ≡ done
            (record { bufs = bufs'; tds = tds'; closed = some j.client })
            (overlay ((j.td, null ∷ j.client ∷ j.links) ∷ []) g))
      × IsPool bufs'
      × ((b : ℕ) → Held bufs' b ↔ ((b ≢ j.out) × Held bufs b))
      × IsTdPool tds'
      × ((t : ℕ) → Held tds' t ↔ ((t ≢ j.td) × Held tds t))
unfolding job_complete
job_complete_lem j k bufs tds g t l m f sound held tds_sound td_held =
    let going : (j.type == job_stop) ≡ false = ground arith in
    let (bufs', bj, bsound, bheld, _) = join_buffer_lem bufs j.out sound held in
    let (tds', tj, tsound, theld, _) = join_td_lem tds j.td tds_sound td_held in
    let td : Words = j.sq ∷ j.client ∷ j.links in
    let td' : Words = null ∷ j.client ∷ j.links in
    let (_, _, last) = (hashes_fresh j k g f).1 in
    let after = AreFresh-set ((j.job, job_words j) ∷ []) j.td td td' [] g last in
    (
      bufs',
      tds',
      rw
          (
            load_type j k g f,
            going,
            free_request_lem j k g f l m,
            load-middle [] j.job 0 (job_words j) j.td ((j.td, td) ∷ []) g last refl,
            load-middle ((j.job, job_words j) ∷ []) j.td 1 td j.client [] g last refl,
            load-middle [] j.job 6 (job_words j) j.out ((j.td, td) ∷ []) g last refl,
            bj,
            set_word-middle ((j.job, job_words j) ∷ []) j.td 0 null td [] g last,
            tj,
            set_word-middle [] j.job 0 null (job_words j) ((j.td, td') ∷ []) g after,
            free-first j.job (null ∷ j.pairs ∷ j.type ∷ j.status ∷ j.peer_req ∷ j.peer ∷ j.out ∷ [])
                (overlay ((j.td, td') ∷ []) g) (after.1),
          )
          refl,
      bsound,
      bheld,
      tsound,
      theld,
    )

-- A job that stops a thread has nothing else, and gives nothing back.
pub job_complete-stop :
    (job k : ℕ) (words : Words) (bufs : BufferPool) (tds : Pool ℕ) (g : Heap)
    → get_elem? words 2 ≡ some job_stop
    → AreFresh ((job, words) ∷ []) g
    → job_complete k bufs tds job (overlay ((job, words) ∷ []) g)
      ≡ done (record { bufs = bufs; tds = tds; closed = none }) g
unfolding job_complete
job_complete-stop job k words bufs tds g w (n, e, _) =
    rw (load-middle [] job 2 words job_stop [] g (n, e, tt) w, free-first job words g e) refl
