-- ===== src/WorkQueue/Order.antt =====
-- In which order jobs and thread data leave their lists.
use ttracker.Base.{ℕ, ◌+◌, ◌≡◌, sym, ap, ◌∙◌, some, List, [], ◌∷◌, ◌++◌, arith, ◌==◌, if◌then◌else◌}
use mathlib.Core.List.{append_assoc}
use ttracker.Base.{append-nil}
use ttracker.WorkQueue.{enqueue_job, deq_job, td_enqueue, td_list_deq}

module _ {ℓ} {A : Type ℓ} where
  -- The calls that the threads make on the queue, in the order in which they get the mutex, with the
  -- jobs that came in and that went out.
  pub data Calls : List A → List A → List A → List A → Type ℓ where
    start : (wq : List A) → Calls wq [] [] wq
    enqueues :
        {wq jobs done wq' : List A} (job : A)
        → Calls wq jobs done wq'
        → Calls wq (jobs ++ job ∷ []) done (enqueue_job wq' job)
    dequeues :
        {wq jobs done wq' wq'' : List A} (job : A)
        → Calls wq jobs done wq'
        → deq_job wq' ≡ some (job, wq'')
        → Calls wq jobs (done ++ job ∷ []) wq''

  deq_job-front :
      (wq : List A) {job : A} {wq' : List A} → deq_job wq ≡ some (job, wq') → wq ≡ job ∷ wq'
  unfolding deq_job
  deq_job-front [] h = absurd (cc)
  deq_job-front (j ∷ wq) h = cc

  -- Jobs are worked on in the order in which they came: the jobs that left the queue and then those
  -- that are in it are the jobs that were in it and then those that were put in, whatever the
  -- interleaving of the calls is.
  pub Calls-fifo : {wq jobs done wq' : List A} → Calls wq jobs done wq' → done ++ wq' ≡ wq ++ jobs
  unfolding enqueue_job deq_job
  Calls-fifo (start wq) = sym (append-nil wq)
  Calls-fifo (enqueues {wq} {jobs} {done} {wq'} job c) =
      sym (append_assoc done wq' (job ∷ []))
      ∙ ap (λ l. l ++ job ∷ []) (Calls-fifo c)
      ∙ append_assoc wq jobs (job ∷ [])
  Calls-fifo (dequeues {wq} {jobs} {done} {wq'} job c h) =
      append_assoc done (job ∷ []) _
      ∙ ap (λ l. done ++ l) (sym (deq_job-front wq' h))
      ∙ Calls-fifo c

-- How often an address stands in a list.
abbrev pub count : ℕ → List ℕ → ℕ
count x [] = 0
count x (y ∷ ys) = (if y == x then 1 else 0) + count x ys

-- The same for the list of thread data, given by their addresses.
pub data TdCalls : List ℕ → List ℕ → List ℕ → List ℕ → Type 0 where
  start : (tds : List ℕ) → TdCalls tds [] [] tds
  enqueues :
      {tds given taken tds' : List ℕ} (td : ℕ)
      → TdCalls tds given taken tds'
      → TdCalls tds (td ∷ given) taken (td_enqueue tds' td)
  dequeues :
      {tds given taken tds' tds'' : List ℕ} (td : ℕ)
      → TdCalls tds given taken tds'
      → td_list_deq tds' ≡ some (td, tds'')
      → TdCalls tds given (td ∷ taken) tds''

td_list_deq-front :
    (tds : List ℕ) {td : ℕ} {tds' : List ℕ} → td_list_deq tds ≡ some (td, tds') → tds ≡ td ∷ tds'
unfolding td_list_deq
td_list_deq-front [] h = absurd (cc)
td_list_deq-front (j ∷ tds) h = cc

-- No thread data is lost and none is handed out twice: whatever the interleaving of the calls is, an
-- address is as often among those that were taken and those that wait as it was in the list and
-- among those that were put in.
pub TdCalls-count :
    {tds given taken tds' : List ℕ}
    → TdCalls tds given taken tds'
    → (x : ℕ) → count x taken + count x tds' ≡ count x tds + count x given
unfolding td_enqueue
TdCalls-count (TdCalls.start tds) x = omega arith
TdCalls-count (TdCalls.enqueues td c) x = omega (arith, TdCalls-count c x)
TdCalls-count (TdCalls.dequeues {tds} {given} {taken} {tds'} {tds''} td c h) x =
    omega (arith, TdCalls-count c x, ap (λ l. count x l) (td_list_deq-front tds' h))
