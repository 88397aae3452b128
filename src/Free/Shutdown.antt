-- ===== src/Free/Shutdown.antt =====
-- main.c: the part of `do_shutdown` that frees the server, behind the threads. The server has the
-- words th_list, th_count, fd, tries, sq, bp and tp; the queues wq, tl, tlist and tp; the torrent
-- list cond, mutex, list and working; the job queue mtx, cond and wq.
pub mod Freed
use ttracker.Base.{
  ℕ, ◌+◌, ◌<◌, ◌≡◌, refl, sym, ap, subst, ◌∙◌, List, [], ◌∷◌, ◌++◌, map, length, arith, ◌==◌,
  if◌then◌else◌,
}
use ttracker.Heap.{
  null, Words, Heap, done, fault, Effect, load, set_word, free, put, skip, ◌>>=◌, ◌>>◌,
}
use ttracker.Heap.Overlay.{
  Objects, overlay, AreFresh, overlay-append, AreFresh-append, AreFresh-set, free-first,
  load-middle, set_word-middle, load-past, overlay-middle, put-under,
}
use ttracker.Heap.Removing.{list_objects}
use ttracker.Free.Pools.{pool_objects}
use ttracker.Free.Buffers.{PoolBuffer, buffer_node, stop_buffers, stop_buffers_lem}
use ttracker.Free.ThreadData.{PoolTd, td_node, stop_td_pool, stop_td_pool_lem}
use ttracker.Free.Waiting.{Waiting, waiting_objects, stop_list, stop_list_lem}
use ttracker.Free.Torrents.{ListedTorrent, torrent_node, stop_torrents, stop_torrents_lem, IsEnough}

-- What is left when the torrents, the pools and the list of thread data are gone. The assertion on
-- th_count faults where it fails. Each of wq, tl and sq is read once.
unfoldable pub free_queues : (s sq tl wq : ℕ) → Effect
free_queues s sq tl wq = do
  list ← load tl 2
  set_word list 0 null
  free list
  mutex ← load tl 1
  cond ← load tl 0
  free mutex
  free cond
  jobs ← load wq 2
  set_word jobs 0 null
  mtx ← load wq 0
  free mtx
  free jobs
  free wq
  free tl
  free sq
  count ← load s 1
  if count == 0 then skip else (λ h. fault)
  th_list ← load s 0
  set_word th_list 0 null
  free th_list
  free s

unfoldable pub free_pools : ℕ → (s sq tl : ℕ) → Effect
free_pools k s sq tl = do
  bp ← load s 5
  stop_buffers k bp
  tlist ← load sq 2
  stop_list k tlist
  tp ← load s 6
  stop_td_pool k tp
  wq ← load sq 0
  free_queues s sq tl wq

-- `torrent_stop_pool` to the end of `do_shutdown`, with fuel for every list.
unfoldable pub free_server : ℕ → ℕ → Effect
free_server k s = do
  sq ← load s 4
  tl ← load sq 1
  list ← load tl 2
  stop_torrents k list
  free_pools k s sq tl

-- The addresses, and the words that do not matter.
pub record Layout : Type 0 where
  pub list : ℕ
  pub mutex : ℕ
  pub cond : ℕ
  pub mtx : ℕ
  pub jobs : ℕ
  pub wq : ℕ
  pub tl : ℕ
  pub sq : ℕ
  pub th_list : ℕ
  pub s : ℕ
  pub wq_cond : ℕ
  pub working : ℕ
  pub first_job : ℕ
  pub first_thread : ℕ
  pub fd : ℕ
  pub tries : ℕ
  pub bp : ℕ
  pub tlist : ℕ
  pub tp : ℕ
  pub sq_tp : ℕ

module _ (a : Layout) where
  abbrev pub server_words : Words
  server_words = a.th_list ∷ 0 ∷ a.fd ∷ a.tries ∷ a.sq ∷ a.bp ∷ a.tp ∷ []

  abbrev pub torrent_list_words : Words
  torrent_list_words = a.cond ∷ a.mutex ∷ a.list ∷ a.working ∷ []

  abbrev pub job_queue_words : Words
  job_queue_words = a.mtx ∷ a.wq_cond ∷ a.jobs ∷ []

  abbrev pub queues_words : Words
  queues_words = a.wq ∷ a.tl ∷ a.tlist ∷ a.sq_tp ∷ []

  abbrev pub last_objects : Objects
  last_objects = (a.sq, queues_words) ∷ (a.th_list, a.first_thread ∷ []) ∷ (a.s, server_words) ∷ []

  abbrev pub job_objects : ℕ → Objects
  job_objects first =
      (a.jobs, first ∷ []) ∷ (a.wq, job_queue_words) ∷ (a.tl, torrent_list_words) ∷ last_objects

  abbrev pub queue_objects : Objects
  queue_objects = (a.mutex, []) ∷ (a.cond, []) ∷ (a.mtx, []) ∷ job_objects a.first_job

  pub free_queues_lem :
      (first : ℕ) (g : Heap)
      → AreFresh ((a.list, first ∷ []) ∷ queue_objects) g
      → free_queues a.s a.sq a.tl a.wq (overlay ((a.list, first ∷ []) ∷ queue_objects) g)
        ≡ done tt g
  unfolding free_queues
  free_queues_lem first g f =
      let (_, le, fb) = f in
      let (_, me, fc) = fb in
      let (_, ce, fd) = fc in
      let (_, de, fe) = fd in
      let (_, je, fw) = fe in
      let (_, we, ft) = fw in
      let (_, te, fq) = ft in
      let (_, qe, fh) = fq in
      let (_, he, (_, se, _)) = fh in
      let jobs_empty =
        AreFresh-set ((a.mtx, []) ∷ []) a.jobs (a.first_job ∷ []) (null ∷ [])
          ((a.wq, job_queue_words) ∷ (a.tl, torrent_list_words) ∷ last_objects) g fd in
      let start : Objects =
        (a.mutex, [])
        ∷ (a.cond, [])
        ∷ (a.mtx, [])
        ∷ (a.jobs, a.first_job ∷ [])
        ∷ (a.wq, job_queue_words)
        ∷ [] in
      let rest : Objects = (a.wq, job_queue_words) ∷ (a.tl, torrent_list_words) ∷ last_objects in
      let tail : Objects = (a.th_list, a.first_thread ∷ []) ∷ (a.s, server_words) ∷ [] in
      rw
        (
          load-middle ((a.list, first ∷ []) ∷ start) a.tl 2 torrent_list_words a.list last_objects g
              f refl,
          set_word-middle [] a.list 0 null (first ∷ []) queue_objects g f,
          free-first a.list (null ∷ []) (overlay queue_objects g) le,
          load-middle start a.tl 1 torrent_list_words a.mutex last_objects g fb refl,
          load-middle start a.tl 0 torrent_list_words a.cond last_objects g fb refl,
          free-first a.mutex [] (overlay ((a.cond, []) ∷ (a.mtx, []) ∷ job_objects a.first_job) g)
              me,
          free-first a.cond [] (overlay ((a.mtx, []) ∷ job_objects a.first_job) g) ce,
          load-middle ((a.mtx, []) ∷ (a.jobs, a.first_job ∷ []) ∷ []) a.wq 2 job_queue_words a.jobs
              ((a.tl, torrent_list_words) ∷ last_objects) g fd refl,
          set_word-middle ((a.mtx, []) ∷ []) a.jobs 0 null (a.first_job ∷ []) rest g fd,
          load-middle ((a.mtx, []) ∷ (a.jobs, null ∷ []) ∷ []) a.wq 0 job_queue_words a.mtx
              ((a.tl, torrent_list_words) ∷ last_objects) g jobs_empty refl,
          free-first a.mtx [] (overlay (job_objects null) g) (jobs_empty.1),
          free-first a.jobs (null ∷ []) (overlay rest g) je,
          free-first a.wq job_queue_words (overlay ((a.tl, torrent_list_words) ∷ last_objects) g)
              we,
          free-first a.tl torrent_list_words (overlay last_objects g) te,
          free-first a.sq queues_words (overlay tail g) qe,
          load-middle ((a.th_list, a.first_thread ∷ []) ∷ []) a.s 1 server_words 0 [] g fh refl,
          load-middle ((a.th_list, a.first_thread ∷ []) ∷ []) a.s 0 server_words a.th_list [] g fh
              refl,
          set_word-middle [] a.th_list 0 null (a.first_thread ∷ []) ((a.s, server_words) ∷ []) g fh,
          free-first a.th_list (null ∷ []) (overlay ((a.s, server_words) ∷ []) g) he,
        )
        (free-first a.s server_words g se)
