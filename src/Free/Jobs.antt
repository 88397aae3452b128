-- ===== src/Free/Jobs.antt =====
-- work.c: `job_complete`, the whole function: what it frees, and what it gives back to the pools. The
-- pools are as in BufferPool.antt and TdPool.antt.
pub mod Complete
use ttracker.Base.{
  ℕ, ◌+◌, ◌-◌, ◌^◌, ◌<◌, ◌≡◌, ◌≢◌, ◌↔◌, refl, false, Bool, Option, none, some, List, [], ◌∷◌, ◌++◌,
  length, arith, ◌==◌, if◌then◌else◌, Bool-cases, inl, inr, ap, ◌∙◌, subst,
}
use ttracker.Pool.{Pool}
use ttracker.Pool.Sound.{Held}
use ttracker.BufferPool.{BufferPool, IsPool, join_buffer, join_buffer_lem}
use ttracker.TdPool.{IsTdPool, join_td, join_td_lem}
use ttracker.Heap.{
  null, Words, Heap, done, fault, Effect, Command, load, set_word, free, unless_null, ◌>>=◌, ◌>>◌,
}
use ttracker.Heap.Overlay.{
  Objects, overlay, AreFresh, overlay-append, AreFresh-append, AreFresh-set, free-first,
  load-middle, load-past, overlay-middle, overlay-past, set_word-middle,
}
use ttracker.Free.{pointer}
use ttracker.Free.Lists.{
  Plain, plain_objects, free_list, free_list_lem, optional_objects, unless_null-free_list,
}

-- JOB_T_STOP is -1, as the word that an int has.
abbrev pub job_stop : ℕ
job_stop = 2 ^ 32 - 1

-- What a call leaves: the pools, and the client that it closes.
pub record Completed : Type 0 where
  pub bufs : BufferPool
  pub tds : Pool ℕ
  pub closed : Option ℕ

-- A call that ends in `abort` is a fault too.
abbrev pub or_abort : {A : Type 0} → Option A → Command A
or_abort none h = fault
or_abort (some a) h = done a h

-- The list of pairs, the hashes and the request.
unfoldable pub free_request : ℕ → ℕ → Effect
free_request k job = do
  pairs ← load job 1
  free_list k pairs
  peer_req ← load job 4
  hashlist ← load peer_req 0
  unless_null hashlist (free_list k hashlist)
  peer_req' ← load job 4
  free peer_req'

-- A job has the words thread_data, http_kv_list, type, http_status, peer_req, peer and out; a
-- request has hashlist first, and thread data have sq, client, bp and tp.
unfoldable pub job_complete : ℕ → BufferPool → Pool ℕ → ℕ → Command Completed
job_complete k bufs tds job = do
  type ← load job 2
  let finish : Command Completed = do
    free_request k job
    td ← load job 0
    client ← load td 1
    out ← load job 6
    bufs' ← or_abort (join_buffer bufs out)
    set_word td 0 null
    tds' ← or_abort (join_td tds td)
    set_word job 0 null
    free job
    done (record { bufs = bufs'; tds = tds'; closed = some client })
  let stop : Command Completed = do
    free job
    done (record { bufs = bufs; tds = tds; closed = none })
  if type == job_stop then stop else finish

-- A job with its lists and its request, in the order in which they are freed, and its thread data.
pub record Finishing : Type 0 where
  pub job : ℕ
  pub type : ℕ
  pub status : ℕ
  pub peer : ℕ
  pub out : ℕ
  pub pairs : ℕ
  pub keyvals : List Plain
  pub peer_req : ℕ
  pub hashlist : Option ℕ
  pub hashes : List Plain
  pub fields : Words
  pub td : ℕ
  pub sq : ℕ
  pub client : ℕ
  pub links : Words

module _ (j : Finishing) where
  abbrev pub job_words : Words
  job_words = j.td ∷ j.pairs ∷ j.type ∷ j.status ∷ j.peer_req ∷ j.peer ∷ j.out ∷ []

  abbrev pub job_last : Objects
  job_last = (j.job, job_words) ∷ (j.td, j.sq ∷ j.client ∷ j.links) ∷ []

  abbrev pub job_tail : Objects
  job_tail = (j.peer_req, pointer j.hashlist ∷ j.fields) ∷ job_last

  abbrev pub job_objects : Objects
  job_objects =
      plain_objects j.pairs j.keyvals ++ (optional_objects j.hashlist j.hashes ++ job_tail)

  module _ (k : ℕ) (g : Heap) (f : AreFresh job_objects g) where
    abbrev layers : Heap
    layers =
        overlay (plain_objects j.pairs j.keyvals)
          (overlay (optional_objects j.hashlist j.hashes) (overlay job_tail g))

    in_layers : overlay job_objects g ≡ layers
    in_layers =
        overlay-append (plain_objects j.pairs j.keyvals)
          (optional_objects j.hashlist j.hashes ++ job_tail) g
        ∙ ap (overlay (plain_objects j.pairs j.keyvals))
            (overlay-append (optional_objects j.hashlist j.hashes) job_tail g)

    pub hashes_fresh :
        AreFresh (optional_objects j.hashlist j.hashes) (overlay job_tail g) × AreFresh job_tail g
    hashes_fresh = AreFresh-append (optional_objects j.hashlist j.hashes) job_tail g (
        (AreFresh-append (plain_objects j.pairs j.keyvals)
          (optional_objects j.hashlist j.hashes ++ job_tail) g f).1)

    pairs_fresh :
        AreFresh
          (plain_objects j.pairs j.keyvals)
          (overlay (optional_objects j.hashlist j.hashes) (overlay job_tail g))
    pairs_fresh =
        subst (AreFresh (plain_objects j.pairs j.keyvals))
          (overlay-append (optional_objects j.hashlist j.hashes) job_tail g)
          ((AreFresh-append (plain_objects j.pairs j.keyvals)
            (optional_objects j.hashlist j.hashes ++ job_tail) g f).0)

    under_hashes :
        (p : ℕ) (o : Words)
        → overlay job_tail g p ≡ some o
        → overlay (optional_objects j.hashlist j.hashes) (overlay job_tail g) p ≡ some o
    under_hashes p o e =
        overlay-past (optional_objects j.hashlist j.hashes) p o (overlay job_tail g)
          (hashes_fresh.0) e

    job_there : overlay job_tail g j.job ≡ some job_words
    job_there =
        overlay-middle ((j.peer_req, pointer j.hashlist ∷ j.fields) ∷ []) j.job job_words
          ((j.td, j.sq ∷ j.client ∷ j.links) ∷ []) g (hashes_fresh.1)

    pub load_type : load j.job 2 (overlay job_objects g) ≡ done j.type (overlay job_objects g)
    load_type = rw in_layers (
        load-past (plain_objects j.pairs j.keyvals) j.job 2 job_words j.type
          (overlay (optional_objects j.hashlist j.hashes) (overlay job_tail g)) pairs_fresh
          (under_hashes j.job job_words job_there) refl)

    pub free_request_lem :
        length j.keyvals < k
        → length j.hashes < k
        → free_request k j.job (overlay job_objects g) ≡ done tt (overlay job_last g)
    unfolding free_request
    free_request_lem l m =
        let hs = optional_objects j.hashlist j.hashes in
        let tail = overlay job_tail g in
        let (rn, re, last) = hashes_fresh.1 in
        rw
          (
            in_layers,
            load-past (plain_objects j.pairs j.keyvals) j.job 1 job_words j.pairs (overlay hs tail)
                pairs_fresh (under_hashes j.job job_words job_there) refl,
            free_list_lem j.pairs [] j.keyvals k (overlay hs tail) l pairs_fresh,
            load-past hs j.job 4 job_words j.peer_req tail (hashes_fresh.0) job_there refl,
            load-past hs j.peer_req 0 (pointer j.hashlist ∷ j.fields) (pointer j.hashlist) tail
                (hashes_fresh.0)
                (overlay-middle [] j.peer_req (pointer j.hashlist ∷ j.fields) job_last g
                  (hashes_fresh.1))
                refl,
            unless_null-free_list j.hashlist j.hashes k tail m (hashes_fresh.0),
            load-middle ((j.peer_req, pointer j.hashlist ∷ j.fields) ∷ []) j.job 4 job_words
                j.peer_req ((j.td, j.sq ∷ j.client ∷ j.links) ∷ []) g (hashes_fresh.1) refl,
          )
          (free-first j.peer_req (pointer j.hashlist ∷ j.fields) (overlay job_last g) re)
