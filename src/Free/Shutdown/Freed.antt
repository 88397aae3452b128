-- ===== src/Free/Shutdown/Freed.antt =====
-- What the end of `do_shutdown` leaves.
use ttracker.Base.{ℕ, ◌<◌, ◌≡◌, refl, subst, some, List, [], ◌∷◌, ◌++◌, map, length}
use ttracker.Heap.{null, Words, Heap, done}
use ttracker.Heap.Overlay.{
  Objects, overlay, AreFresh, overlay-append, AreFresh-append, load-past, overlay-past,
  overlay-middle, put-under,
}
use ttracker.Heap.Each.{objects, first}
use ttracker.Heap.Removing.{list_objects}
use ttracker.Free.Pools.{pool_objects}
use ttracker.Free.Buffers.{PoolBuffer, buffer_node, stop_buffers_lem}
use ttracker.Free.ThreadData.{PoolTd, td_node, stop_td_pool_lem}
use ttracker.Free.Waiting.{Waiting, waiting_objects, stop_list_lem}
use ttracker.Free.Torrents.{ListedTorrent, torrent_node, stop_torrents_lem, IsEnough}
use ttracker.Free.Shutdown.{
  free_pools, free_server, Layout, server_words, torrent_list_words, queues_words, queue_objects,
  job_queue_words, last_objects, free_queues_lem,
}

-- What hangs on the server: its torrents, buffers, waiting thread data, and thread data, with the
-- addresses and the counters of the lists that these are in.
pub record Structures : Type 0 where
  pub torrents : List ListedTorrent
  pub buffers : List PoolBuffer
  pub waiting : List Waiting
  pub tds : List PoolTd
  pub buffer_list : ℕ
  pub buffers_inuse : ℕ
  pub buffers_num : ℕ
  pub waiting_list : ℕ
  pub waiting_inuse : ℕ
  pub waiting_cond : ℕ
  pub waiting_mtx : ℕ
  pub td_list : ℕ
  pub tds_inuse : ℕ
  pub tds_num : ℕ

module _ (a : Layout) (x : Structures) where
  abbrev pub td_objects : Objects
  td_objects = pool_objects a.tp x.td_list x.tds_inuse x.tds_num (map td_node x.tds)

  abbrev pub waiting_part : Objects
  waiting_part =
      waiting_objects a.tlist x.waiting_list x.waiting_inuse x.waiting_cond x.waiting_mtx x.waiting
      ++ td_objects

  abbrev pub pools_part : Objects
  pools_part =
      pool_objects a.bp x.buffer_list x.buffers_inuse x.buffers_num (map buffer_node x.buffers)
      ++ waiting_part

  abbrev pub torrents_part : Objects
  torrents_part = objects (map torrent_node x.torrents)

  -- All objects of the server but the condition variable of the job queue.
  abbrev pub server_objects : Objects
  server_objects =
      (torrents_part ++ (a.list, first (map torrent_node x.torrents) ∷ []) ∷ [])
      ++ (pools_part ++ queue_objects a)

  abbrev under : Objects
  under = (a.list, null ∷ []) ∷ queue_objects a

  module _ (k : ℕ) (g : Heap) where
    abbrev queues : Heap
    queues = overlay (queue_objects a) g

    -- The objects behind the pools are there.
    module _ (f : AreFresh (queue_objects a) g) where
      server_there : queues a.s ≡ some (server_words a)
      server_there =
          overlay-middle
            ((a.mutex, [])
              ∷ (a.cond, [])
              ∷ (a.mtx, [])
              ∷ (a.jobs, a.first_job ∷ [])
              ∷ (a.wq, job_queue_words a)
              ∷ (a.tl, torrent_list_words a)
              ∷ (a.sq, queues_words a)
              ∷ (a.th_list, a.first_thread ∷ [])
              ∷ [])
            a.s (server_words a) [] g f

      queues_there : queues a.sq ≡ some (queues_words a)
      queues_there =
          overlay-middle
            ((a.mutex, [])
              ∷ (a.cond, [])
              ∷ (a.mtx, [])
              ∷ (a.jobs, a.first_job ∷ [])
              ∷ (a.wq, job_queue_words a)
              ∷ (a.tl, torrent_list_words a)
              ∷ [])
            a.sq (queues_words a) ((a.th_list, a.first_thread ∷ []) ∷ (a.s, server_words a) ∷ []) g
            f

      list_there : queues a.tl ≡ some (torrent_list_words a)
      list_there =
          overlay-middle
            ((a.mutex, [])
              ∷ (a.cond, [])
              ∷ (a.mtx, [])
              ∷ (a.jobs, a.first_job ∷ [])
              ∷ (a.wq, job_queue_words a)
              ∷ [])
            a.tl (torrent_list_words a) (last_objects a) g f

-- Fuel above the length of each list, and above the number of peers of each torrent.
pub record HasFuel (k : ℕ) (x : Structures) : Type 0 where
  pub torrents : IsEnough k x.torrents
  pub buffers : length x.buffers < k
  pub waiting : length x.waiting < k
  pub tds : length x.tds < k

module _ (a : Layout) (x : Structures) (k : ℕ) (g : Heap) where
  abbrev left : Heap
  left = overlay (under a x) g

  -- Behind the torrents.
  after_torrents :
      HasFuel k x
      → (f : AreFresh (under a x) g) → AreFresh (pools_part a x) left
      → (free_pools k a.s a.sq a.tl (overlay (pools_part a x) left)) ≡ done tt g
  unfolding free_pools
  after_torrents l f pf =
      let (ln, le, q) = f in
      let there = λ (p : ℕ) (o : Words) (e : queues a x k g p ≡ some o).
        overlay-past ((a.list, null ∷ []) ∷ []) p o (queues a x k g) (ln, le, tt) e in
      let server = there a.s (server_words a) (server_there a x k g q) in
      let qs = there a.sq (queues_words a) (queues_there a x k g q) in
      let (bf, wpf) =
        AreFresh-append
          (pool_objects a.bp x.buffer_list x.buffers_inuse x.buffers_num
            (map buffer_node x.buffers))
          (waiting_part a x) left pf in
      let (wf, tf) =
        AreFresh-append
          (waiting_objects a.tlist x.waiting_list x.waiting_inuse x.waiting_cond x.waiting_mtx
            x.waiting)
          (td_objects a x) left wpf in
      rw
        (
          load-past (pools_part a x) a.s 5 (server_words a) a.bp left pf server refl,
          overlay-append
              (pool_objects a.bp x.buffer_list x.buffers_inuse x.buffers_num
                (map buffer_node x.buffers))
              (waiting_part a x) left,
          stop_buffers_lem a.bp x.buffer_list x.buffers_inuse x.buffers_num x.buffers k
              (overlay (waiting_part a x) left) l.buffers bf,
          load-past (waiting_part a x) a.sq 2 (queues_words a) a.tlist left wpf qs refl,
          overlay-append
              (waiting_objects a.tlist x.waiting_list x.waiting_inuse x.waiting_cond x.waiting_mtx
                x.waiting)
              (td_objects a x) left,
          stop_list_lem a.tlist x.waiting_list x.waiting_inuse x.waiting_cond x.waiting_mtx
              x.waiting k (overlay (td_objects a x) left) l.waiting wf,
          load-past (td_objects a x) a.s 6 (server_words a) a.tp left tf server refl,
          stop_td_pool_lem a.tp x.td_list x.tds_inuse x.tds_num x.tds k left l.tds tf,
          load-past [] a.sq 0 (queues_words a) a.wq left tt qs refl,
        )
        (free_queues_lem a null g f)

  -- On a heap that has the server with any torrents and peers, a buffer pool, a pool of thread data and
  -- a list of waiting thread data that are not of the pool, beside any objects at other addresses, and
  -- no thread in the list: the part of `do_shutdown` behind the threads ends, and frees each object
  -- of these once, the server itself last. It leaves exactly the others: the condition variable of
  -- the job queue, which is not among those that are freed, and jobs that are still queued would be
  -- there.
  pub free_server_lem :
      HasFuel k x
      → AreFresh (server_objects a x) g
      → free_server k a.s (overlay (server_objects a x) g) ≡ done tt g
  unfolding free_server
  free_server_lem l f =
      let top = list_objects a.list (map torrent_node x.torrents) in
      let q = queues a x k g in
      let rest = overlay (pools_part a x) q in
      let (tf0, rf) = AreFresh-append top (pools_part a x ++ queue_objects a) g f in
      let (pf, qf) = AreFresh-append (pools_part a x) (queue_objects a) g rf in
      let tf = subst (AreFresh top) (overlay-append (pools_part a x) (queue_objects a) g) tf0 in
      let (_, (ln, le, _)) =
        AreFresh-append (torrents_part a x)
          ((a.list, first (map torrent_node x.torrents) ∷ []) ∷ []) rest tf in
      let (same, pf', free) = put-under (pools_part a x) a.list (null ∷ []) q pf le in
      let past =
        λ (p : ℕ) (o : Words) (e : q p ≡ some o). overlay-past (pools_part a x) p o q pf e in
      rw
        (
          overlay-append top (pools_part a x ++ queue_objects a) g,
          overlay-append (pools_part a x) (queue_objects a) g,
          load-past top a.s 4 (server_words a) a.sq rest tf
              (past a.s (server_words a) (server_there a x k g qf)) refl,
          load-past top a.sq 1 (queues_words a) a.tl rest tf
              (past a.sq (queues_words a) (queues_there a x k g qf)) refl,
          load-past top a.tl 2 (torrent_list_words a) a.list rest tf
              (past a.tl (torrent_list_words a) (list_there a x k g qf)) refl,
          stop_torrents_lem a.list x.torrents k rest l.torrents tf,
          same,
        )
        (after_torrents l (ln, free, qf) pf')
