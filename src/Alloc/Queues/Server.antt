-- ===== src/Alloc/Queues/Server.antt =====
-- main.c: the queues of `server_init_globals`, put together behind `s->sq`.
use ttracker.Base.{ℕ, ◌≡◌, refl, sym, ap, ◌∙◌, [], ◌∷◌, ◌++◌, inr}
use ttracker.Heap.{null, Words, Heap, done, Effect, load, set_word, ◌>>=◌, ◌>>◌}
use ttracker.Heap.Overlay.{
  Objects, overlay, AreFresh, overlay-append, load-middle, set_word-middle, AreFresh-set,
}
use ttracker.Free.Waiting.{waiting_objects}
use ttracker.Alloc.{Malloc, IsMalloc, xmalloc}
use ttracker.Alloc.Outcome.{Gives, rebase, bind, follow}
use ttracker.Alloc.Placed.{Holds, allocate, assign, four-words}
use ttracker.Alloc.Queues.{make_torrent_list, make_job_queue, make_td_list}
use ttracker.Alloc.Queues.Made.{make_torrent_list-Gives, make_job_queue-Gives, make_td_list-Gives}

-- The server has the word sq at 4, and the queues have wq, tl, tlist and tp, which is not written.
-- `s->sq` is read once.
unfoldable pub init_queues : Malloc → ℕ → Effect
init_queues malloc s = do
  tl ← make_torrent_list malloc
  wq ← make_job_queue malloc
  tlist ← make_td_list malloc
  made ← xmalloc malloc 4
  set_word s 4 made
  sq ← load s 4
  set_word sq 0 wq
  set_word sq 1 tl
  set_word sq 2 tlist

-- Objects on top of others
AreFresh-stack :
    (xs ys : Objects) (g : Heap)
    → AreFresh xs (overlay ys g)
    → AreFresh ys g
    → AreFresh (xs ++ ys) g
AreFresh-stack [] ys g f k = k
AreFresh-stack ((p, o) ∷ xs) ys g (n, e, f) k =
    (n, ap (λ h. h p) (overlay-append xs ys g) ∙ e, AreFresh-stack xs ys g f k)

pub stack : (xs ys : Objects) (g h h' : Heap) → Holds ys g h → Holds xs h h' → Holds (xs ++ ys) g h'
stack xs ys g h h' (e, f) (d, k) =
    (d ∙ ap (overlay xs) e ∙ sym (overlay-append xs ys g), AreFresh-stack xs ys g (rw (sym e) k) f)

-- The queues as they are made: no torrent, no job, no thread data, and nobody at work.
pub record Queues : Type 0 where
  pub sq : ℕ
  pub wq : ℕ
  pub tl : ℕ
  pub tlist : ℕ
  pub torrents : ℕ
  pub tl_cond : ℕ
  pub tl_mutex : ℕ
  pub jobs : ℕ
  pub wq_cond : ℕ
  pub wq_mtx : ℕ
  pub head : ℕ
  pub inuse : ℕ
  pub td_cond : ℕ
  pub td_mtx : ℕ
  pub tp : ℕ

module _ (q : Queues) where
  abbrev pub torrent_part : Objects
  torrent_part =
      (q.torrents, null ∷ [])
      ∷ (q.tl_cond, [])
      ∷ (q.tl_mutex, [])
      ∷ (q.tl, q.tl_cond ∷ q.tl_mutex ∷ q.torrents ∷ 0 ∷ [])
      ∷ []

  abbrev pub job_part : Objects
  job_part =
      (q.wq_cond, [])
      ∷ (q.jobs, null ∷ [])
      ∷ (q.wq_mtx, [])
      ∷ (q.wq, q.wq_mtx ∷ q.wq_cond ∷ q.jobs ∷ [])
      ∷ []

  abbrev pub td_part : Objects
  td_part = waiting_objects q.tlist q.head q.inuse q.td_cond q.td_mtx []

  abbrev pub parts : Objects
  parts = td_part ++ job_part ++ torrent_part

module _ (malloc : Malloc) (is : IsMalloc malloc) (g : Heap) where
  -- On a heap with a server on it, beside any objects at other addresses, and with a malloc that gives
  -- fresh objects or NULL, either the program ends, and malloc gives NULL for a size, or exactly thirteen objects
  -- are added, at addresses that are distinct and were not in use: the torrent list with nobody at
  -- work, the job queue and the list of thread data, each with its lists empty and its locks its own,
  -- and the object that the server's sq then points to, whose wq, tl and tlist are these three. The
  -- server's other words and the other objects stay. No step is undefined.
  pub init_queues-Gives :
      (s th_list count fd tries x bp tp : ℕ) (h : Heap)
      → Holds ((s, th_list ∷ count ∷ fd ∷ tries ∷ x ∷ bp ∷ tp ∷ []) ∷ []) g h
      → Gives malloc g (init_queues malloc s) h (λ _ h'.
        (q : Queues) × Holds
          ((q.sq, q.wq ∷ q.tl ∷ q.tlist ∷ q.tp ∷ []) ∷ parts q
            ++ (s, th_list ∷ count ∷ fd ∷ tries ∷ q.sq ∷ bp ∷ tp ∷ []) ∷ [])
          g
          h')
  unfolding init_queues
  init_queues-Gives s th_list count fd tries x bp tp h at =
      let w : ℕ → Words = λ v. th_list ∷ count ∷ fd ∷ tries ∷ v ∷ bp ∷ tp ∷ [] in
      let base : Objects = (s, w x) ∷ [] in
      bind malloc g (make_torrent_list malloc) _ h _ _
        (rebase malloc base g h (make_torrent_list malloc) h _ (at.0)
          (make_torrent_list-Gives malloc is h))
        λ tl h1 (torrents, tl_cond, tl_mutex, s1).
          let tls : Objects =
            (torrents, null ∷ [])
            ∷ (tl_cond, [])
            ∷ (tl_mutex, [])
            ∷ (tl, tl_cond ∷ tl_mutex ∷ torrents ∷ 0 ∷ [])
            ∷ [] in
          let at1 : Holds (tls ++ base) g h1 = stack tls base g h h1 at s1 in
          bind malloc g (make_job_queue malloc) _ h1 _ _
            (rebase malloc (tls ++ base) g h1 (make_job_queue malloc) h1 _ (at1.0)
              (make_job_queue-Gives malloc is h1))
            λ wq h2 (wq_cond, jobs, wq_mtx, s2).
              let wqs : Objects =
                (wq_cond, [])
                ∷ (jobs, null ∷ [])
                ∷ (wq_mtx, [])
                ∷ (wq, wq_mtx ∷ wq_cond ∷ jobs ∷ [])
                ∷ [] in
              let at2 : Holds (wqs ++ tls ++ base) g h2 = stack wqs (tls ++ base) g h1 h2 at1 s2 in
              bind malloc g (make_td_list malloc) _ h2 _ _
                (rebase malloc (wqs ++ tls ++ base) g h2 (make_td_list malloc) h2 _ (at2.0)
                  (make_td_list-Gives malloc is h2))
                λ tlist h3 (head, inuse, td_cond, td_mtx, s3).
                  let q : ℕ → ℕ → Queues = λ sq tp. record {
                    sq = sq;
                    wq = wq;
                    tl = tl;
                    tlist = tlist;
                    torrents = torrents;
                    tl_cond = tl_cond;
                    tl_mutex = tl_mutex;
                    jobs = jobs;
                    wq_cond = wq_cond;
                    wq_mtx = wq_mtx;
                    head = head;
                    inuse = inuse;
                    td_cond = td_cond;
                    td_mtx = td_mtx;
                    tp = tp;
                  } in
                  let own = parts (q 0 0) in
                  let here : Holds (own ++ (s, w x) ∷ []) g h3 =
                    stack (td_part (q 0 0)) (wqs ++ tls ++ base) g h2 h3 at2 s3 in
                  bind malloc g (xmalloc malloc 4) _ h3 _ _
                    (allocate malloc is g 4 (own ++ (s, w x) ∷ []) h3 here)
                    λ sq h4 (v, l, s4).
                      let (a, b, c, d, e) = four-words v l in
                      let o : Words = a ∷ b ∷ c ∷ d ∷ [] in
                      let s4' : Holds ((sq, o) ∷ own ++ (s, w x) ∷ []) g h4 = rw (sym e) s4 in
                      assign malloc is g ((sq, o) ∷ own) s 4 sq (w x) [] h4 _ _ s4' λ h5 s5.
                        let read : load s 4 h5 ≡ done sq h5 =
                          rw (s5.0) (load-middle ((sq, o) ∷ own) s 4 (w sq) sq [] g (s5.1) refl) in
                        follow malloc g (load s 4) _ h5 sq h5 _ read (
                          assign malloc is g [] sq 0 wq o (own ++ (s, w sq) ∷ []) h5 _ _ s5 λ h6 s6.
                            assign malloc is g [] sq 1 tl (wq ∷ b ∷ c ∷ d ∷ [])
                              (own ++ (s, w sq) ∷ []) h6 _ _ s6
                              λ h7 s7. inr (
                                tt,
                                _,
                                ap (set_word sq 2 tlist) (s7.0)
                                    ∙ set_word-middle [] sq 2 tlist (wq ∷ tl ∷ c ∷ d ∷ [])
                                        (own ++ (s, w sq) ∷ []) g (s7.1),
                                (
                                  q sq d,
                                  (
                                    refl,
                                    AreFresh-set [] sq (wq ∷ tl ∷ c ∷ d ∷ [])
                                        (wq ∷ tl ∷ tlist ∷ d ∷ []) (own ++ (s, w sq) ∷ []) g (s7.1),
                                  ),
                                ),
                              ))
