-- ===== src/Tests/Allocations.antt =====
-- An allocator, and a pool that is made with it.
use ttracker.Base.{
  ℕ, zero, suc, ◌≡◌, ◌⊎◌, none, some, Option-cases, inl, inr, [], ◌∷◌, refl, replicate,
  length-replicate, arith,
}
use ttracker.Heap.{done, exited, ◌>>=◌}
use ttracker.Alloc.{Malloc, IsMalloc}
use ttracker.Alloc.Cycle.{pool_life, pool_life_lem}
use ttracker.Heap.Overlay.{Objects, overlay}
use ttracker.Alloc.Outcome.{Gives}
use ttracker.Alloc.Placed.{Holds}
use ttracker.Alloc.Queues.Server.{init_queues}
use ttracker.Alloc.Queues.Leak.{end_queues, init_queues-end_queues}
use ttracker.Tests.Frees.{nothing}

-- The last free address of those up to `k`.
seek : ℕ → Malloc
seek zero n h = none
seek (suc k) n h =
    let lower = seek k n h in
    elim (h (suc k)) [ none ↦ some (suc k, replicate n 7) | some o ↦ lower ]

seek-IsMalloc : (k : ℕ) → IsMalloc (seek k)
unfolding seek
seek-IsMalloc zero n h p w e = absurd (cc)
seek-IsMalloc (suc k) n h p w e = elim (Option-cases (h (suc k))) [
  | inl free ↦ ground (arith, free, length-replicate {A = ℕ} n 7)
  | inr (o, taken) ↦ ground (arith, taken, seek-IsMalloc k n h p w)
]

pool_life_lem_example :
    ((pool_life (seek 100) 30 2 nothing ≡ exited)
      × (n : ℕ) × (xs : Objects) × (seek 100 n (overlay xs nothing) ≡ none))
    ⊎ (pool_life (seek 100) 30 2 nothing ≡ done tt nothing)
pool_life_lem_example = pool_life_lem (seek 100) (seek-IsMalloc 100) nothing 30 2 (omega arith)

init_queues-end_queues_example :
    Gives
      (seek 100)
      nothing
      (init_queues (seek 100) 5 >>= λ _. end_queues 1 5)
      (overlay ((5, 8 ∷ 0 ∷ 3 ∷ 0 ∷ 7 ∷ 7 ∷ 7 ∷ []) ∷ (8, 0 ∷ []) ∷ []) nothing)
      (λ _ h'. (cond : ℕ) × Holds ((cond, []) ∷ []) nothing h')
unfolding ttracker.Heap.put
init_queues-end_queues_example =
    init_queues-end_queues (seek 100) (seek-IsMalloc 100) nothing 5 8 0 3 0 7 7 7 0
      (overlay ((5, 8 ∷ 0 ∷ 3 ∷ 0 ∷ 7 ∷ 7 ∷ 7 ∷ []) ∷ (8, 0 ∷ []) ∷ []) nothing)
      (refl, (omega arith, refl, (omega arith, refl, tt)))
