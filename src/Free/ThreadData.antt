-- ===== src/Free/ThreadData.antt =====
-- td_pool.c and work.c: the functions that free the pool of thread data and the list of those that
-- wait.
use ttracker.Base.{ℕ, ◌<◌, ◌≡◌, refl, List, [], ◌∷◌, map, All, length, arith, length-map}
use ttracker.Heap.{Words, Heap, done, Effect, load, free, ◌>>=◌, ◌>>◌}
use ttracker.Heap.Overlay.{overlay, AreFresh, free-first, load-middle}
use ttracker.Heap.Each.{Node, IsFreed}
use ttracker.Free.Pools.{pool_objects, stop_pool, stop_pool_lem}

-- The body of the loop of `td_stop_td_pool`, for an entry with the words thread_data and status.
unfoldable pub stop_td_entry : ℕ → Effect
stop_td_entry tde = do td ← load tde 1; free td; free tde

unfoldable pub stop_td_pool : ℕ → ℕ → Effect
stop_td_pool k tdp = stop_pool stop_td_entry k tdp

-- An entry of the pool, with its thread data.
pub record PoolTd : Type 0 where
  pub entry : ℕ
  pub status : ℕ
  pub td : ℕ
  pub words : Words

abbrev pub td_node : PoolTd → Node
td_node e = record { at = e.entry; fields = e.td ∷ e.status ∷ []; own = (e.td, e.words) ∷ [] }

stop_td_entry-IsFreed : (e : PoolTd) → IsFreed stop_td_entry (td_node e)
unfolding stop_td_entry
stop_td_entry-IsFreed e n h f =
    let w : Words = n ∷ e.td ∷ e.status ∷ [] in
    let (_, te, (_, ee, _)) = f in
    rw
      (
        load-middle ((e.td, e.words) ∷ []) e.entry 1 w e.td [] h f refl,
        free-first e.td e.words (overlay ((e.entry, w) ∷ []) h) te,
      )
      (free-first e.entry w h ee)

pub entries-IsFreed : (es : List PoolTd) → All (IsFreed stop_td_entry) (map td_node es)
entries-IsFreed [] = tt
entries-IsFreed (e ∷ es) = (stop_td_entry-IsFreed e, entries-IsFreed es)

-- On a heap that has a pool of thread data with any entries, beside any objects at other addresses,
-- `td_stop_td_pool` ends with every object of the pool freed once, and leaves exactly the other
-- objects. Fuel above the number of entries is enough.
pub stop_td_pool_lem :
    (tdp list inuse num : ℕ) (es : List PoolTd) (k : ℕ) (g : Heap)
    → length es < k
    → AreFresh (pool_objects tdp list inuse num (map td_node es)) g
    → stop_td_pool k tdp (overlay (pool_objects tdp list inuse num (map td_node es)) g) ≡ done tt g
unfolding stop_td_pool
stop_td_pool_lem tdp list inuse num es k g l f =
    stop_pool_lem stop_td_entry tdp list inuse num (map td_node es) k g
      (omega (arith, length-map td_node es)) (entries-IsFreed es) f
