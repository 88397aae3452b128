-- ===== src/Alloc/Queues.antt =====
-- main.c: `build_server_connection`, `server_init_server_list`, and what `server_init_globals`
-- allocates for the queues. A mutex and a condition have no words here, since what is in them is no
-- matter.
pub mod Made
pub mod Server
pub mod Leak
use ttracker.Base.{
  if◌then◌else◌, ℕ, zero, suc, ◌+◌, ◌≡◌, Option, none, some, refl, sym, ap, ◌∙◌, inl, inr, List, [],
  ◌∷◌, ◌++◌, length, set, arith, ◌≤◌,
}
use ttracker.Base.Int.{ℤ, negsuc, eq_ℤ}
use ttracker.Heap.{null, Words, Heap, done, exited, Command, Effect, set_word, ◌>>=◌, ◌>>◌}
use ttracker.Heap.Overlay.{Objects, overlay, AreFresh, AreFresh-set, set_word-middle}
use ttracker.Free.Waiting.{Waiting, waiting_objects, stop_list, stop_list_lem}
use ttracker.Alloc.{Malloc, IsMalloc, xmalloc}
use ttracker.Alloc.Outcome.{Gives, bind, follow, xmalloc-Gives, one-word, three-words}

module _ (malloc : Malloc) where
  unfoldable pub make_torrent_list : Command ℕ
  make_torrent_list = do
    tl ← xmalloc malloc 4
    mutex ← xmalloc malloc 0
    set_word tl 1 mutex
    cond ← xmalloc malloc 0
    set_word tl 0 cond
    first ← xmalloc malloc 1
    set_word tl 2 first
    set_word first 0 null
    set_word tl 3 0
    done tl

  unfoldable pub make_job_queue : Command ℕ
  make_job_queue = do
    wq ← xmalloc malloc 3
    mtx ← xmalloc malloc 0
    set_word wq 0 mtx
    jobs ← xmalloc malloc 1
    set_word wq 2 jobs
    cond ← xmalloc malloc 0
    set_word wq 1 cond
    set_word jobs 0 null
    done wq

  -- The word inuse is not written.
  unfoldable pub make_td_list : Command ℕ
  make_td_list = do
    tlist ← xmalloc malloc 4
    head ← xmalloc malloc 1
    set_word tlist 0 head
    cond ← xmalloc malloc 0
    set_word tlist 2 cond
    mtx ← xmalloc malloc 0
    set_word tlist 3 mtx
    set_word head 0 null
    done tlist

  -- With what socket, bind and listen give; `none` is the -1 of socket.
  unfoldable pub build_server_connection : Option ℕ → (bound listening : ℤ) → Command ℕ
  build_server_connection none bound listening = λ h. exited
  build_server_connection (some server) bound listening =
      let built : Command ℕ = (do
        s ← xmalloc malloc 7
        set_word s 2 server
        set_word s 3 0
        done s) in
      if eq_ℤ bound (negsuc 0)
      then (λ h. exited)
      else if eq_ℤ listening (negsuc 0)
      then (λ h. exited)
      else built

  unfoldable pub init_server_list : ℕ → Effect
  init_server_list s = do
    th_list ← xmalloc malloc 1
    set_word s 0 th_list
    set_word s 1 0
    set_word th_list 0 null
