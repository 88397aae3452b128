-- ===== src/Alloc/Queues/Leak.antt =====
-- main.c: the queues from `server_init_globals` to the end of `do_shutdown`.
use ttracker.Base.{ℕ, suc, ◌≡◌, refl, sym, ap, ◌∙◌, [], ◌∷◌, ◌++◌, inr, arith}
use ttracker.Heap.{null, Words, Heap, done, Effect, load, ◌>>=◌, ◌>>◌}
use ttracker.Heap.Overlay.{Objects, overlay, AreFresh, AreFresh-append, load-middle}
use ttracker.Heap.Picked.{picks-Agree}
use ttracker.Free.Waiting.{stop_list, stop_list_lem}
use ttracker.Free.Shutdown.{Layout, queue_objects, free_queues, free_queues_lem}
use ttracker.Alloc.{Malloc, IsMalloc}
use ttracker.Alloc.Outcome.{Gives, rebase, bind}
use ttracker.Alloc.Placed.{Holds}
use ttracker.Alloc.Queues.Server.{Queues, parts, td_part, stack, init_queues, init_queues-Gives}

-- The statements of `do_shutdown` about the queues. The pointers are read once.
unfoldable pub end_queues : ℕ → ℕ → Effect
end_queues k s = do
  sq ← load s 4
  tl ← load sq 1
  tlist ← load sq 2
  stop_list k tlist
  wq ← load sq 0
  free_queues s sq tl wq

module _ (q : Queues) (s th_list t fd tries bp tp : ℕ) where
  abbrev server_words : Words
  server_words = th_list ∷ 0 ∷ fd ∷ tries ∷ q.sq ∷ bp ∷ tp ∷ []

  abbrev sq_words : Words
  sq_words = q.wq ∷ q.tl ∷ q.tlist ∷ q.tp ∷ []

  abbrev below : Objects
  below = (s, server_words) ∷ (th_list, t ∷ []) ∷ []

  abbrev made : Objects
  made = (q.sq, sq_words) ∷ parts q ++ below

  abbrev layout : Layout
  layout = record {
    list = q.torrents;
    mutex = q.tl_mutex;
    cond = q.tl_cond;
    mtx = q.wq_mtx;
    jobs = q.jobs;
    wq = q.wq;
    tl = q.tl;
    sq = q.sq;
    th_list = th_list;
    s = s;
    wq_cond = q.wq_cond;
    working = 0;
    first_job = null;
    first_thread = t;
    fd = fd;
    tries = tries;
    bp = bp;
    tlist = q.tlist;
    tp = tp;
    sq_tp = q.tp;
  }

  -- The objects in the order in which they are freed, without those of the list of thread data.
  abbrev rest : Objects
  rest = (q.torrents, null ∷ []) ∷ queue_objects layout ++ (q.wq_cond, []) ∷ []

  ordered :
      (g : Heap)
      → AreFresh made g
      → (overlay (td_part q ++ rest) g ≡ overlay made g) × AreFresh (td_part q ++ rest) g
  ordered g f =
      picks-Agree g (5 ∷ 13 ∷ 14 ∷ 3 ∷ 14 ∷ 11 ∷ 10 ∷ 11 ∷ 13 ∷ 14 ∷ 14 ∷ 14 ∷ 14 ∷ 14 ∷ 14 ∷ [])
        made f

  end_queues_lem :
      (k : ℕ) (g : Heap)
      → AreFresh made g
      → end_queues (suc k) s (overlay made g) ≡ done tt (overlay ((q.wq_cond, []) ∷ []) g)
  unfolding end_queues
  end_queues_lem k g f =
      let (same, fresh) = ordered g f in
      let leaked = overlay ((q.wq_cond, []) ∷ []) g in
      let start : Objects =
        (q.torrents, null ∷ [])
        ∷ (q.tl_mutex, [])
        ∷ (q.tl_cond, [])
        ∷ (q.wq_mtx, [])
        ∷ (q.jobs, null ∷ [])
        ∷ (q.wq, q.wq_mtx ∷ q.wq_cond ∷ q.jobs ∷ [])
        ∷ (q.tl, q.tl_cond ∷ q.tl_mutex ∷ q.torrents ∷ 0 ∷ [])
        ∷ [] in
      let last : Objects = (th_list, t ∷ []) ∷ (s, server_words) ∷ (q.wq_cond, []) ∷ [] in
      let (now, later) = AreFresh-append (td_part q) rest g fresh in
      rw
        (
          load-middle ((q.sq, sq_words) ∷ parts q) s 4 server_words q.sq ((th_list, t ∷ []) ∷ []) g
              f refl,
          load-middle [] q.sq 1 sq_words q.tl (parts q ++ below) g f refl,
          load-middle [] q.sq 2 sq_words q.tlist (parts q ++ below) g f refl,
          sym same,
          stop_list_lem q.tlist q.head q.inuse q.td_cond q.td_mtx [] (suc k) (overlay rest g)
              (omega arith) now,
          load-middle start q.sq 0 sq_words q.wq last g later refl,
        )
        (free_queues_lem layout null leaked (
          (AreFresh-append ((q.torrents, null ∷ []) ∷ queue_objects layout) ((q.wq_cond, []) ∷ []) g
            later).0))

module _ (malloc : Malloc) (is : IsMalloc malloc) (g : Heap) where
  -- On a heap with a server that has its empty list of threads, beside any objects at other
  -- addresses, and with a malloc that gives fresh objects or NULL: either the program ends with
  -- `exit`, and then malloc gives NULL for some size, on the heap of those other objects with some
  -- more on it; or the queues are made and then freed together with the server and its list of
  -- threads, no step is undefined, and what is left is exactly the other objects and one more, the
  -- condition of the job queue, which is never freed.
  pub init_queues-end_queues :
      (s th_list t fd tries x bp tp k : ℕ) (h : Heap)
      → Holds ((s, th_list ∷ 0 ∷ fd ∷ tries ∷ x ∷ bp ∷ tp ∷ []) ∷ (th_list, t ∷ []) ∷ []) g h
      → Gives malloc g
          (init_queues malloc s >>= λ _. end_queues (suc k) s)
          h
          (λ _ h'. (cond : ℕ) × Holds ((cond, []) ∷ []) g h')
  init_queues-end_queues s th_list t fd tries x bp tp k h (e, (sn, se, fh)) =
      let under = overlay ((th_list, t ∷ []) ∷ []) g in
      bind malloc g (init_queues malloc s) _ h _ _
        (rebase malloc ((th_list, t ∷ []) ∷ []) g under (init_queues malloc s) h _ refl
          (init_queues-Gives malloc is under s th_list 0 fd tries x bp tp h (e, (sn, se, tt))))
        λ _ h' (q, at).
          let (here, f) =
            stack
              ((q.sq, q.wq ∷ q.tl ∷ q.tlist ∷ q.tp ∷ []) ∷ parts q
                ++ (s, th_list ∷ 0 ∷ fd ∷ tries ∷ q.sq ∷ bp ∷ tp ∷ []) ∷ [])
              ((th_list, t ∷ []) ∷ []) g under h' (refl, fh) at in
          let (_, fresh) = ordered q s th_list t fd tries bp tp g f in
          inr (
            tt,
            _,
            ap (end_queues (suc k) s) here ∙ end_queues_lem q s th_list t fd tries bp tp k g f,
            (
              q.wq_cond,
              (
                refl,
                (AreFresh-append
                    (td_part q
                      ++ (q.torrents, null ∷ [])
                        ∷ queue_objects (layout q s th_list t fd tries bp tp))
                    ((q.wq_cond, []) ∷ []) g fresh).1,
              ),
            ),
          )
