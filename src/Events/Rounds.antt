-- ===== src/Events/Rounds.antt =====
-- What a round of the main thread does to the server.
use ttracker.Base.{
  ==_self, subst, ℕ, zero, suc, ◌+◌, ◌<◌, ◌≡◌, ◌≢◌, inl, inr, refl, sym, ap, ◌∙◌, Bool, true, false,
  some, List, [], ◌∷◌, length, arith,
}
use ttracker.Base.Int.{pos, negsuc}
use ttracker.Pool.{in_use}
use ttracker.TdPool.{get_td_lem, IsTdPool}
use ttracker.WorkQueue.{safepeek, td_enqueue}
use ttracker.Server.{Shared, Server, write_td, Step, accept, Reach}
use ttracker.Server.Running.{Reach-IsRunning}
use ttracker.Events.{
  Polled, timeout, failed, ready, Accepted, client, interrupted, broken, Accepting, got, exits,
  out_of_fuel, accept_loop, Round, returned, ended, stands, out_of_calls, hand_over, serve,
  after_poll, runq_events,
}

-- The first of the calls of accept, from `i`, that was not interrupted: call `i + n` gave `a`.
abbrev pub Decides : (ℕ → Accepted) → (i f : ℕ) → Accepted → Type 0
Decides calls i f a =
    (n : ℕ) × (n < f) × ((m : ℕ) → m < n → calls (i + m) ≡ interrupted) × (calls (i + n) ≡ a)

-- What poll must have given so that accept is called: with jobs in the queue, that a client is there;
-- without, anything but an interruption.
abbrev pub Asks : List (ℕ × ℕ) → Polled → Type 0
Asks [] polled = polled ≢ failed true
Asks (job ∷ jobs) polled = polled ≡ ready

-- What a round may do, from the results of poll and of `f` calls of accept.
pub data Does (v : Server) (calls : ℕ → Accepted) (f : ℕ) (polled : Polled) : Round → Type 0 where
  timed_out :
      v.shared.jobs ≢ [] → polled ≡ timeout → Does v calls f polled (returned (pos 1) v.shared)
  poll_failed :
      (eintr : Bool)
      → v.shared.jobs ≢ []
      → polled ≡ failed eintr
      → Does v calls f polled (returned (negsuc 0) v.shared)
  poll_interrupted :
      v.shared.jobs ≡ []
      → polled ≡ failed true
      → Does v calls f polled (returned (negsuc 0) v.shared)
  served :
      (c addr td : ℕ) (s : Shared)
      → Asks v.shared.jobs polled
      → Decides calls 0 f (client c addr)
      → Step v (record v { shared = s })
      → s.waiting ≡ td ∷ v.shared.waiting
      → s.written td ≡ some (record { client = c; clientaddr = addr; sq = true; bp = true })
      → Does v calls f polled (returned (pos 0) s)
  all_in_use :
      (c addr : ℕ)
      → Asks v.shared.jobs polled
      → Decides calls 0 f (client c addr)
      → v.shared.tds.num ≡ pos 16
      → in_use v.shared.tds.pool ≡ length v.shared.tds.pool
      → Does v calls f polled stands
  accept_failed : Asks v.shared.jobs polled → Decides calls 0 f broken → Does v calls f polled ended
  accept_interrupted :
      Asks v.shared.jobs polled
      → ((m : ℕ) → m < f → calls m ≡ interrupted)
      → Does v calls f polled out_of_calls

-- The loop of accept, on the calls from `i`.
pub data Loops (calls : ℕ → Accepted) (i f : ℕ) : Accepting → Type 0 where
  a_client : (c addr : ℕ) → Decides calls i f (client c addr) → Loops calls i f (got c addr)
  a_failure : Decides calls i f broken → Loops calls i f exits
  no_end : ((m : ℕ) → m < f → calls (i + m) ≡ interrupted) → Loops calls i f out_of_fuel

Decides-later :
    (calls : ℕ → Accepted) (i f : ℕ) (a : Accepted)
    → calls i ≡ interrupted
    → Decides calls (i + 1) f a
    → Decides calls i (suc f) a
Decides-later calls i f a e (n, l, before, at) =
    let here : i + suc n ≡ i + 1 + n = omega arith in
    (suc n, omega (arith, l), earlier, ap calls here ∙ at)
  where
    earlier : (m : ℕ) → m < suc n → calls (i + m) ≡ interrupted
    earlier zero h = let same : i + 0 ≡ i = omega arith in ap calls same ∙ e
    earlier (suc m) h =
        let same : i + suc m ≡ i + 1 + m = omega arith in
        ap calls same ∙ before m (omega (arith, h))

Loops-later :
    (calls : ℕ → Accepted) (i f : ℕ) (r : Accepting)
    → calls i ≡ interrupted
    → Loops calls (i + 1) f r
    → Loops calls i (suc f) r
Loops-later calls i f r e (a_client c addr d) =
    a_client c addr (Decides-later calls i f (client c addr) e d)
Loops-later calls i f r e (a_failure d) = a_failure (Decides-later calls i f broken e d)
Loops-later calls i f r e (no_end all) = no_end before
  where
    before : (m : ℕ) → m < suc f → calls (i + m) ≡ interrupted
    before zero h = let same : i + 0 ≡ i = omega arith in ap calls same ∙ e
    before (suc m) h =
        let same : i + suc m ≡ i + 1 + m = omega arith in ap calls same ∙ all m (omega (arith, h))

accept_loop-Loops : (calls : ℕ → Accepted) (i f : ℕ) → Loops calls i f (accept_loop calls f i)
unfolding accept_loop
accept_loop-Loops calls i zero = no_end (λ m l. absurd (omega (arith, l)))
accept_loop-Loops calls i (suc f) = by_call (accept_loop-Loops calls (i + 1) f) (calls i) refl
  where
    here : (a : Accepted) → calls i ≡ a → Decides calls i (suc f) a
    here a e =
        let same : i + 0 ≡ i = omega arith in
        (0, omega arith, (λ m l. absurd (omega (arith, l))), ap calls same ∙ e)

    by_call :
        Loops calls (i + 1) f (accept_loop calls f (i + 1))
        → (a : Accepted) → calls i ≡ a
        → Loops calls i (suc f) (accept_loop calls (suc f) i)
    by_call later (client c addr) e = rw (accept_loop, e) (a_client c addr (here (client c addr) e))
    by_call later interrupted e =
        rw (accept_loop, e) (Loops-later calls i f (accept_loop calls f (i + 1)) e later)
    by_call later broken e = rw (accept_loop, e) (a_failure (here broken e))

module _ (v : Server) (calls : ℕ → Accepted) (f : ℕ) (polled : Polled) where
  hand_over-Does :
      (c addr : ℕ)
      → IsTdPool v.shared.tds
      → Decides calls 0 f (client c addr)
      → Asks v.shared.jobs polled
      → Does v calls f polled (hand_over c addr v.shared)
  unfolding hand_over td_enqueue write_td
  hand_over-Does c addr sound d asks = elim (get_td_lem 0 v.shared.tds sound) [
    | inl (w, n, full) ↦ rw (hand_over, w) (all_in_use c addr asks d n full)
    | inr (td, tds, g, _, _, _) ↦
        rw (hand_over, g)
          (served c addr td _ asks d (accept v.shared v.producers v.workers c addr td tds g) refl
            (rw (==_self td) refl))
  ]

  serve-Does :
      (a : Accepting)
      → IsTdPool v.shared.tds
      → Loops calls 0 f a
      → Asks v.shared.jobs polled
      → Does v calls f polled (serve a v.shared)
  unfolding serve
  serve-Does a sound (a_client c addr d) asks = hand_over-Does c addr sound d asks
  serve-Does a sound (a_failure d) asks = accept_failed asks d
  serve-Does a sound (no_end all) asks =
      accept_interrupted asks (λ m l. ap calls (plain m) ∙ all m l)
    where
      plain : (m : ℕ) → m ≡ 0 + m
      plain m = omega arith

cons_nil : (job : ℕ × ℕ) (jobs : List (ℕ × ℕ)) → job ∷ jobs ≢ []
cons_nil job jobs h = cc

-- What stands behind the poll, for the jobs of the queue.
polled-Does :
    (v : Server) (calls : ℕ → Accepted) (f : ℕ) (polled : Polled) (go : Round) (jobs : List (ℕ × ℕ))
    → v.shared.jobs ≡ jobs
    → (Asks v.shared.jobs polled → Does v calls f polled go)
    → Does v calls f polled (after_poll (safepeek jobs) polled v.shared go)
unfolding after_poll safepeek
polled-Does v calls f timeout go [] e next = next (subst (λ j. Asks j timeout) (sym e) (λ h. cc))
polled-Does v calls f (failed true) go [] e next = poll_interrupted e refl
polled-Does v calls f (failed false) go [] e next =
    next (subst (λ j. Asks j (failed false)) (sym e) (λ h. cc))
polled-Does v calls f ready go [] e next = next (subst (λ j. Asks j ready) (sym e) (λ h. cc))
polled-Does v calls f timeout go (job ∷ jobs) e next =
    timed_out (λ h. cons_nil job jobs (sym e ∙ h)) refl
polled-Does v calls f (failed eintr) go (job ∷ jobs) e next =
    poll_failed eintr (λ h. cons_nil job jobs (sym e ∙ h)) refl
polled-Does v calls f ready go (job ∷ jobs) e next = next (subst (λ j. Asks j ready) (sym e) refl)

-- In every server that the threads can reach, whatever poll and accept give, a round of `runq_events`
-- does one of these, and never writes through NULL. With jobs in the queue it returns 1 where poll
-- has timed out and -1 where poll has failed, and without jobs -1 where poll was interrupted; the
-- server is as before then. In every other case it calls accept until a call is not interrupted. If
-- that call gives a client, the round returns 0 after the step of the server that accepts it: one
-- thread data is put in front of those that wait, and holds that client, its address and the server's
-- sq and bp; or all sixteen thread data are in use and the round waits for one. If that call fails
-- otherwise, the program ends. If all of the `f` calls were interrupted, the round
-- is still in its loop.
pub runq_events_lem :
    {v : Server} (calls : ℕ → Accepted) (f : ℕ) (polled : Polled)
    → Reach v
    → Does v calls f polled (runq_events calls f polled v.shared)
unfolding runq_events
runq_events_lem {v} calls f polled r =
    polled-Does v calls f polled (serve (accept_loop calls f 0) v.shared) v.shared.jobs refl (
      serve-Does v calls f polled (accept_loop calls f 0) ((Reach-IsRunning r).counted.sound_tds)
        (accept_loop-Loops calls 0 f))
