-- ===== src/Threads.antt =====
-- main.c: the threads of the server, their creation, the list of them, and how they are stopped.
pub mod Creation
pub mod End
use ttracker.Base.{
  ℕ, zero, suc, ◌+◌, ◌-◌, Bool, true, false, ◌||◌, not, Option, none, some, List, [], ◌∷◌, ◌++◌,
  ltb, ◌==◌, if◌then◌else◌,
}
use ttracker.Base.Int.{ℤ, pos, negsuc, eq_ℤ}
use ttracker.WorkQueue.{enqueue_job, td_enqueue}

-- MAX_THREADS / 2, and MAX_TRY
abbrev pub half : ℕ
half = 4

abbrev pub max_try : ℕ
max_try = 10

-- TAILQ_INSERT_TAIL of the entry `i`, which may be in the list: its own link becomes NULL, the link of
-- the last entry becomes `i`, and `i` is the last entry then. So an entry that is not in the list comes
-- behind the others; one in the middle cuts off what stands behind it; and if it is the last already,
-- its link leads to itself, which is what the flag says, until another entry is inserted behind it.
unfoldable pub insert_tail : ℕ → List ℕ → List ℕ × Bool
insert_tail i [] = (i ∷ [], false)
insert_tail i (t ∷ []) = if t == i then (t ∷ [], true) else (t ∷ i ∷ [], false)
insert_tail i (t ∷ u ∷ ts) =
    let (rest, turned) = insert_tail i (u ∷ ts) in
    if t == i then (t ∷ [], false) else (t ∷ rest, turned)

-- The list of threads, by their places in the array `tids`, whether its last entry leads to itself,
-- and the counter.
pub record Spawned : Type 0 where
  pub th_list : List ℕ
  pub looped : Bool
  pub th_count : ℕ

-- The insertion and the counter.
unfoldable pub insert_thread : ℕ → Spawned → Spawned
insert_thread i s =
    let (ts, turned) = insert_tail i s.th_list in
    record { th_list = ts; looped = turned; th_count = s.th_count + 1 }

-- The program may end in the loop.
pub data Spawning : Type 0 where
  runs exits : Spawned → Spawning
  out_of_fuel : Spawning

-- The loop of `server_init_threads`, where `create c` is the result of call `c` of pthread_create.
-- After a failure `i` is counted down, and up again by `continue`. The fuel is the number of rounds.
unfoldable pub spawn_loop : (ℕ → ℤ) → ℕ → (c i tries : ℕ) → Spawned → Spawning
spawn_loop create zero c i tries s = out_of_fuel
spawn_loop create (suc f) c i tries s =
    let worker = insert_thread i s in
    let both = insert_thread (i + half) worker in
    let again = spawn_loop create f (c + 1) i (tries + 1) s in
    let again_behind = spawn_loop create f (c + 2) i (tries + 1) worker in
    let next = spawn_loop create f (c + 2) (i + 1) tries both in
    if not (ltb i half)
    then runs s
    else if eq_ℤ (create c) (negsuc 0)
    then (if tries + 1 == max_try then exits s else again)
    else if eq_ℤ (create (c + 1)) (negsuc 0)
    then (if tries + 1 == max_try then exits worker else again_behind)
    else next

-- Four rounds and ten failures are the most, and the last test.
unfoldable pub init_threads : (ℕ → ℤ) → Spawning
init_threads create =
    spawn_loop create 15 0 0 0 (record { th_list = []; looped = false; th_count = 0 })

-- The threads with their array: whether that is allocated.
pub record Threads : Type 0 where
  pub spawned : Spawned
  pub allocated : Bool

-- free(&tids[i]) is defined for the start of the array, once.
unfoldable pub free_thread : ℕ → Threads → Option Threads
free_thread i s =
    if s.allocated then (if i == 0 then some (record s { allocated = false }) else none) else none

-- TAILQ_REMOVE of the first entry that it is, and the counter.
unfoldable pub remove_thread : ℕ → List ℕ → List ℕ
remove_thread i [] = []
remove_thread i (t ∷ ts) = let rest = t ∷ remove_thread i ts in if t == i then ts else rest

-- The loop of `cleanup_server` over the entries that are left, in a list that is not looped, where `ended i` says that
-- pthread_peekjoin_np gives 0 for a thread; elsewhere than on FreeBSD it is always false. `none` is a
-- read of an entry behind `free`, or a `free` inside of the array.
unfoldable pub cleanup_server : (ℕ → Bool) → Bool → List ℕ → Threads → Option Threads
cleanup_server ended force [] s = some s
cleanup_server ended force (p1 ∷ ps) s =
    let rest = λ (t : Threads). cleanup_server ended force ps t in
    let removed : Spawned = record s.spawned {
      th_list = remove_thread p1 s.spawned.th_list;
      th_count = s.spawned.th_count - 1;
    } in
    if not s.allocated
    then none
    else if ended p1 || force
    then elim (free_thread p1 (record s { spawned = removed })) [ none ↦ none | some t ↦ rest t ]
    else rest s

-- What stops a thread is told from a client by sq, which is NULL.
pub data Handed (A : Type 0) : Type 0 where
  stop : Handed A
  client : A → Handed A

-- `td_null` of work.c: whether sq or bp is NULL.
unfoldable pub td_null : {A : Type 0} → Handed A → Bool
td_null stop = true
td_null (client a) = false

-- The rounds of `server_stop_threads`, on the list of waiting thread data and the queue of jobs.
unfoldable pub stop_threads :
    {A B : Type 0} → ℕ → List (Handed A) × List (Handed B) → List (Handed A) × List (Handed B)
stop_threads zero q = q
stop_threads (suc n) (tds, jobs) = stop_threads n (td_enqueue tds stop, enqueue_job jobs stop)
