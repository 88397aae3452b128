-- ===== src/Events.antt =====
-- main.c: `runq_events`, a round of the main thread, with what poll and accept give as parameters.
pub mod Rounds
use ttracker.Base.{ℕ, zero, suc, ◌+◌, Bool, true, false, Option, none, some, if◌then◌else◌}
use ttracker.Base.Int.{ℤ, pos, negsuc}
use ttracker.Pool.{Attempt, waits, returns}
use ttracker.TdPool.{get_td}
use ttracker.WorkQueue.{safepeek, td_enqueue}
use ttracker.Server.{Shared, write_td}

-- The results of poll: 0, -1 with whether errno is EINTR, and more than 0.
pub data Polled : Type 0 where
  timeout : Polled
  failed : Bool → Polled
  ready : Polled

-- The results of accept: a client with its address, and -1 with EINTR or another errno.
pub data Accepted : Type 0 where
  client : (fd addr : ℕ) → Accepted
  interrupted broken : Accepted

-- How the loop of accept ends, from call `i`. The fuel is the number of calls.
pub data Accepting : Type 0 where
  got : (fd addr : ℕ) → Accepting
  exits out_of_fuel : Accepting

unfoldable pub accept_loop : (ℕ → Accepted) → ℕ → ℕ → Accepting
accept_loop accept zero i = out_of_fuel
accept_loop accept (suc f) i =
    let again = accept_loop accept f (i + 1) in
    elim (accept i) [ client c addr ↦ got c addr | interrupted ↦ again | broken ↦ exits ]

-- What a round does: it returns, exits, stands in `td_pool_get_td`, or writes through the NULL that
-- this may give.
pub data Round : Type 0 where
  returned : ℤ → Shared → Round
  ended stands faults out_of_calls : Round

-- The stores into the thread data, and then the list of those that wait.
unfoldable pub hand_over : (c addr : ℕ) → Shared → Round
hand_over c addr s = elim (get_td 0 s.tds) [
  | waits tds ↦ stands
  | returns none tds ↦ faults
  | returns (some td) tds ↦ returned (pos 0) (record s {
    tds = tds;
    waiting = td_enqueue s.waiting td;
    written = write_td td c addr s.written;
  })
]

unfoldable pub serve : Accepting → Shared → Round
serve (got c addr) s = hand_over c addr s
serve exits s = ended
serve out_of_fuel s = out_of_calls

-- With jobs in the queue, poll waits for a second at most, and otherwise without end; then only EINTR
-- is an error. `go` is what follows.
unfoldable pub after_poll : Bool → Polled → Shared → Round → Round
after_poll true timeout s go = returned (pos 1) s
after_poll true (failed eintr) s go = returned (negsuc 0) s
after_poll true ready s go = go
after_poll false timeout s go = go
after_poll false (failed eintr) s go = if eintr then returned (negsuc 0) s else go
after_poll false ready s go = go

unfoldable pub runq_events : (ℕ → Accepted) → ℕ → Polled → Shared → Round
runq_events accept f polled s =
    after_poll (safepeek s.jobs) polled s (serve (accept_loop accept f 0) s)
