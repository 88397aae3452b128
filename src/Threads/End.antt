-- ===== src/Threads/End.antt =====
-- How `do_shutdown` stops the threads, and what its clean-up of their list does.
use ttracker.Base.{
  ℕ, zero, suc, ◌≤◌, ◌≡◌, refl, sym, ap, ap₂, ◌∙◌, inl, inr, Bool, true, false, none, some, List,
  [], ◌∷◌, ◌++◌, replicate, length, arith, append_assoc, append-nil,
}
use ttracker.WorkQueue.{enqueue_job, td_enqueue}
use ttracker.Base.Int.{ℤ}
use ttracker.Threads.Creation.{init_threads-Ends}
use ttracker.Threads.{
  runs, exits, init_threads, Spawned, Threads, free_thread, cleanup_server, Handed, stop,
  stop_threads,
}

replicate-append {ℓ} :
    {A : Type ℓ} (n : ℕ) (a : A) (xs : List A) → replicate n a ++ a ∷ xs ≡ a ∷ replicate n a ++ xs
replicate-append zero a xs = refl
replicate-append (suc n) a xs = ap (λ l. a ∷ l) (replicate-append n a xs)

-- `server_stop_threads` with any number of rounds puts as many entries that stop a thread before all
-- thread data that wait, so that the threads which read requests end and leave those; and behind all
-- jobs, so that the workers end after these.
pub stop_threads_lem :
    {A B : Type 0} (n : ℕ) (tds : List (Handed A)) (jobs : List (Handed B))
    → stop_threads n (tds, jobs) ≡ (replicate n stop ++ tds, jobs ++ replicate n stop)
unfolding stop_threads td_enqueue enqueue_job
stop_threads_lem zero tds jobs = ap (λ l. (tds, l)) (sym (append-nil jobs))
stop_threads_lem (suc n) tds jobs =
    stop_threads_lem n (stop ∷ tds) (jobs ++ stop ∷ [])
    ∙ ap₂ (λ x y. (x, y)) (replicate-append n stop tds)
        (append_assoc jobs (stop ∷ []) (replicate n stop))

-- Only the `free` of the start of the array is defined, and the next entry is then read after it.
two-faults :
    (ended : ℕ → Bool) (ps : List ℕ) (s : Threads)
    → 2 ≤ length ps
    → cleanup_server ended true ps s ≡ none
unfolding cleanup_server free_thread
two-faults ended [] s l = absurd (omega arith)
two-faults ended (p ∷ []) s l = absurd (omega arith)
two-faults ended (p1 ∷ p2 ∷ ps) s l = ground arith

runs-inj : (s t : Spawned) → runs s ≡ runs t → s ≡ t
runs-inj s t e = cc

runs-exits : (s t : Spawned) → runs s ≡ exits t → ⊥
runs-exits s t e = cc

-- Whatever pthread_create gives, on the list of threads that `server_init_threads` makes when it goes
-- on, the clean-up with force, which `do_shutdown` makes, is undefined: the array of the threads is
-- allocated as one, and each entry of it is freed.
pub init_threads-cleanup :
    (create : ℕ → ℤ) (ended : ℕ → Bool) (s : Spawned)
    → init_threads create ≡ runs s
    → cleanup_server ended true s.th_list (record { spawned = s; allocated = true }) ≡ none
init_threads-cleanup create ended s e = elim (init_threads-Ends create) [
  | inl (t, tries, r, _, h) ↦
      let same = runs-inj t s (sym r ∙ e) in
      two-faults ended s.th_list (record { spawned = s; allocated = true })
        (omega (arith, ap (λ ts. length ts) h.listed, ap (λ (u : Spawned). length u.th_list) same))
  | inr (t, n, x, _) ↦ absurd (runs-exits s t (sym e ∙ x))
]

-- Elsewhere than on FreeBSD, the clean-up without force, which every round of the main loop makes,
-- leaves the threads as they are.
pub cleanup_server-idle :
    (ps : List ℕ) (s : Threads)
    → s.allocated ≡ true
    → cleanup_server (λ _. false) false ps s ≡ some s
unfolding cleanup_server
cleanup_server-idle [] s a = refl
cleanup_server-idle (p ∷ ps) s a = ground (arith, cleanup_server-idle ps s a)
