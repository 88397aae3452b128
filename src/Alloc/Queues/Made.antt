-- ===== src/Alloc/Queues/Made.antt =====
-- What the queues of main.c are as they are made.
use ttracker.Base.{ℕ, suc, ◌≡◌, refl, sym, inr, [], ◌∷◌, ◌++◌, arith}
use ttracker.Heap.{null, Heap, ◌>>=◌}
use ttracker.Heap.Overlay.{Objects}
use ttracker.Free.Waiting.{waiting_objects, stop_list, stop_list_lem}
use ttracker.Alloc.{Malloc, IsMalloc, xmalloc}
use ttracker.Alloc.Outcome.{Gives, bind, three-words}
use ttracker.Alloc.Placed.{Holds, four-words, allocate, assign, allocate_opaque, allocate_head}
use ttracker.Alloc.Queues.{make_torrent_list, make_job_queue, make_td_list}

module _ (malloc : Malloc) (is : IsMalloc malloc) (g : Heap) where
  -- The list of thread data is empty as it is made.
  pub make_td_list-Gives : Gives malloc g (make_td_list malloc) g (λ tlist h'.
      (head : ℕ) × (inuse : ℕ) × (cond : ℕ) × (mtx : ℕ) × Holds
        (waiting_objects tlist head inuse cond mtx [])
        g
        h')
  unfolding make_td_list
  make_td_list-Gives =
      bind malloc g (xmalloc malloc 4) _ g _ _ (allocate malloc is g 4 [] g (refl, tt))
        λ tlist h1 (w, l, s1).
          let (a, b, c, d, e) = four-words w l in
          let s1' : Holds ((tlist, a ∷ b ∷ c ∷ d ∷ []) ∷ []) g h1 = rw (sym e) s1 in
          bind malloc g (xmalloc malloc 1) _ h1 _ _
            (allocate_head malloc is g ((tlist, a ∷ b ∷ c ∷ d ∷ []) ∷ []) h1 s1')
            λ head h2 (x, s2).
              assign malloc is g ((head, x ∷ []) ∷ []) tlist 0 head (a ∷ b ∷ c ∷ d ∷ []) [] h2 _ _
                s2
                λ h3 s3.
                  bind malloc g (xmalloc malloc 0) _ h3 _ _
                    (allocate_opaque malloc is g
                      ((head, x ∷ []) ∷ (tlist, head ∷ b ∷ c ∷ d ∷ []) ∷ []) h3 s3)
                    λ cond h4 s4.
                      assign malloc is g ((cond, []) ∷ (head, x ∷ []) ∷ []) tlist 2 cond
                        (head ∷ b ∷ c ∷ d ∷ []) [] h4 _ _ s4
                        λ h5 s5.
                          bind malloc g (xmalloc malloc 0) _ h5 _ _
                            (allocate_opaque malloc is g
                              ((cond, []) ∷ (head, x ∷ []) ∷ (tlist, head ∷ b ∷ cond ∷ d ∷ []) ∷ [])
                              h5 s5)
                            λ mtx h6 s6.
                              assign malloc is g ((mtx, []) ∷ (cond, []) ∷ (head, x ∷ []) ∷ [])
                                tlist 3 mtx (head ∷ b ∷ cond ∷ d ∷ []) [] h6 _ _ s6
                                λ h7 s7.
                                  assign malloc is g ((mtx, []) ∷ (cond, []) ∷ []) head 0 null
                                    (x ∷ []) ((tlist, head ∷ b ∷ cond ∷ mtx ∷ []) ∷ []) h7 _ _ s7
                                    λ h8 s8. inr (tlist, h8, refl, (head, b, cond, mtx, s8))

  -- `td_stop_list` takes back exactly what was allocated for the list.
  pub make_td_list-stop :
      (k : ℕ) → Gives malloc g (make_td_list malloc >>= stop_list (suc k)) g (λ _ h'. h' ≡ g)
  make_td_list-stop k =
      bind malloc g (make_td_list malloc) _ g _ _ make_td_list-Gives
        λ tlist h' (head, inuse, cond, mtx, (e, f)).
          rw e (
            inr (tt, g, stop_list_lem tlist head inuse cond mtx [] (suc k) g (omega arith) f, refl))

  pub make_torrent_list-Gives : Gives malloc g (make_torrent_list malloc) g (λ tl h'.
      (first : ℕ) × (cond : ℕ) × (mutex : ℕ) × Holds
        ((first, null ∷ []) ∷ (cond, []) ∷ (mutex, []) ∷ (tl, cond ∷ mutex ∷ first ∷ 0 ∷ []) ∷ [])
        g
        h')
  unfolding make_torrent_list
  make_torrent_list-Gives =
      bind malloc g (xmalloc malloc 4) _ g _ _ (allocate malloc is g 4 [] g (refl, tt))
        λ tl h1 (w, l, s1).
          let (a, b, c, d, e) = four-words w l in
          let s1' : Holds ((tl, a ∷ b ∷ c ∷ d ∷ []) ∷ []) g h1 = rw (sym e) s1 in
          bind malloc g (xmalloc malloc 0) _ h1 _ _
            (allocate_opaque malloc is g ((tl, a ∷ b ∷ c ∷ d ∷ []) ∷ []) h1 s1')
            λ mutex h2 s2.
              assign malloc is g ((mutex, []) ∷ []) tl 1 mutex (a ∷ b ∷ c ∷ d ∷ []) [] h2 _ _ s2
                λ h3 s3.
                  bind malloc g (xmalloc malloc 0) _ h3 _ _
                    (allocate_opaque malloc is g ((mutex, []) ∷ (tl, a ∷ mutex ∷ c ∷ d ∷ []) ∷ [])
                      h3 s3)
                    λ cond h4 s4.
                      let locks : Objects = (cond, []) ∷ (mutex, []) ∷ [] in
                      assign malloc is g locks tl 0 cond (a ∷ mutex ∷ c ∷ d ∷ []) [] h4 _ _ s4
                        λ h5 s5.
                          bind malloc g (xmalloc malloc 1) _ h5 _ _
                            (allocate_head malloc is g
                              (locks ++ (tl, cond ∷ mutex ∷ c ∷ d ∷ []) ∷ []) h5 s5)
                            λ first h6 (x, s6).
                              assign malloc is g ((first, x ∷ []) ∷ locks) tl 2 first
                                (cond ∷ mutex ∷ c ∷ d ∷ []) [] h6 _ _ s6
                                λ h7 s7.
                                  assign malloc is g [] first 0 null (x ∷ [])
                                    (locks ++ (tl, cond ∷ mutex ∷ first ∷ d ∷ []) ∷ []) h7 _ _ s7
                                    λ h8 s8.
                                      assign malloc is g ((first, null ∷ []) ∷ locks) tl 3 0
                                        (cond ∷ mutex ∷ first ∷ d ∷ []) [] h8 _ _ s8
                                        λ h9 s9. inr (tl, h9, refl, (first, cond, mutex, s9))

  pub make_job_queue-Gives : Gives malloc g (make_job_queue malloc) g (λ wq h'.
      (cond : ℕ) × (jobs : ℕ) × (mtx : ℕ) × Holds
        ((cond, []) ∷ (jobs, null ∷ []) ∷ (mtx, []) ∷ (wq, mtx ∷ cond ∷ jobs ∷ []) ∷ [])
        g
        h')
  unfolding make_job_queue
  make_job_queue-Gives =
      bind malloc g (xmalloc malloc 3) _ g _ _ (allocate malloc is g 3 [] g (refl, tt))
        λ wq h1 (w, l, s1).
          let (a, b, c, e) = three-words w l in
          let s1' : Holds ((wq, a ∷ b ∷ c ∷ []) ∷ []) g h1 = rw (sym e) s1 in
          bind malloc g (xmalloc malloc 0) _ h1 _ _
            (allocate_opaque malloc is g ((wq, a ∷ b ∷ c ∷ []) ∷ []) h1 s1')
            λ mtx h2 s2.
              assign malloc is g ((mtx, []) ∷ []) wq 0 mtx (a ∷ b ∷ c ∷ []) [] h2 _ _ s2 λ h3 s3.
                bind malloc g (xmalloc malloc 1) _ h3 _ _
                  (allocate_head malloc is g ((mtx, []) ∷ (wq, mtx ∷ b ∷ c ∷ []) ∷ []) h3 s3)
                  λ jobs h4 (x, s4).
                    let own : Objects = (jobs, x ∷ []) ∷ (mtx, []) ∷ [] in
                    assign malloc is g own wq 2 jobs (mtx ∷ b ∷ c ∷ []) [] h4 _ _ s4 λ h5 s5.
                      bind malloc g (xmalloc malloc 0) _ h5 _ _
                        (allocate_opaque malloc is g (own ++ (wq, mtx ∷ b ∷ jobs ∷ []) ∷ []) h5 s5)
                        λ cond h6 s6.
                          assign malloc is g ((cond, []) ∷ own) wq 1 cond (mtx ∷ b ∷ jobs ∷ []) []
                            h6 _ _ s6
                            λ h7 s7.
                              assign malloc is g ((cond, []) ∷ []) jobs 0 null (x ∷ [])
                                ((mtx, []) ∷ (wq, mtx ∷ cond ∷ jobs ∷ []) ∷ []) h7 _ _ s7
                                λ h8 s8. inr (wq, h8, refl, (cond, jobs, mtx, s8))
