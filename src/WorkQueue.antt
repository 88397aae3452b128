-- ===== src/WorkQueue.antt =====
-- work.c: the queue of jobs and the list of thread data that wait for a worker. Every function holds
-- the mutex of its list, except in pthread_cond_wait. An entry is what it carries.
pub mod Order
use ttracker.Base.{ℕ, Bool, true, false, Option, none, some, List, [], ◌∷◌, ◌++◌}

module _ {ℓ} {A : Type ℓ} where
  -- TAILQ_INSERT_TAIL
  unfoldable pub enqueue_job : List A → A → List A
  enqueue_job wq job = wq ++ job ∷ []

  -- `workq_unsafe_deq_job`, and `workq_dequeue_job` with the mutex: `none` for NULL.
  unfoldable pub deq_job : List A → Option (A × List A)
  deq_job [] = none
  deq_job (job ∷ wq) = some (job, wq)

  -- `workq_safepeek`
  unfoldable pub safepeek : List A → Bool
  safepeek [] = false
  safepeek (job ∷ wq) = true

  -- LIST_INSERT_HEAD
  unfoldable pub td_enqueue : List A → A → List A
  td_enqueue tds td = td ∷ tds

  unfoldable pub td_list_deq : List A → Option (A × List A)
  td_list_deq [] = none
  td_list_deq (td ∷ tds) = some (td, tds)

  -- The loops of `workq_wait_and_deq_job` and `td_wait_and_dequeue`: the list at each time that the
  -- mutex is got, which others may have changed meanwhile. `none` while the last found nothing.
  unfoldable pub wait_and_deq : (List A → Option (A × List A)) → List (List A) → Option (A × List A)
  wait_and_deq deq [] = none
  wait_and_deq deq (wq ∷ later) =
      let rest = wait_and_deq deq later in elim (deq wq) [ none ↦ rest | some r ↦ some r ]
