-- ===== src/Free/Twice.antt =====
-- The order of `do_shutdown` in main.c: `td_stop_list`, then `td_stop_td_pool`. Thread data that a
-- client still waits with belongs to both.
use ttracker.Base.{
  ℕ, zero, suc, ◌+◌, ◌<◌, ◌≡◌, refl, sym, ap, ◌∙◌, Option, none, some, List, [], ◌∷◌, ◌++◌, map,
  All, length, arith, length-append, length-map, inl, inr, Option-cases,
}
use ttracker.Heap.{Words, Heap, fault, Effect, each, ◌>>◌}
use ttracker.Heap.Overlay.{
  Objects, overlay, AreFresh, overlay-append, AreFresh-append, overlay-past, free-none, load-middle,
}
use ttracker.Heap.Each.{Node, first, block, objects, IsFreed, own-not-null, each_round, each_fault}
use ttracker.Free.Pools.{pool_objects, stop_pool-enter}
use ttracker.Free.ThreadData.{PoolTd, td_node, stop_td_entry, stop_td_pool, entries-IsFreed}
use ttracker.Free.Waiting.{Waiting, waiting_node, waiting_objects, stop_list, stop_list_lem}

-- `td_stop_list(tlist); td_stop_td_pool(tdp);`
unfoldable pub stop_tds : ℕ → ℕ → ℕ → Effect
stop_tds k tlist tdp = stop_list k tlist >> stop_td_pool k tdp

some-none : {A : Type 0} {o : Option A} (a : A) → o ≡ some a → o ≡ none → ⊥
some-none a e f = cc

none-under : (xs : Objects) (h : Heap) (p : ℕ) → AreFresh xs h → overlay xs h p ≡ none → h p ≡ none
none-under xs h p f e = elim (Option-cases (h p)) [
  | inl n ↦ n
  | inr (o, s) ↦ absurd (some-none o (overlay-past xs p o h f s) e)
]

-- The loop up to the entry whose body faults.
each_faults :
    (body : ℕ → Effect) (ns ms : List Node) (x : Node) (p : ℕ) (h : Heap) (k : ℕ)
    → length ns < k
    → All (IsFreed body) ns
    → ((g : Heap)
        → AreFresh (block x (first ms)) g
        → overlay (block x (first ms)) g p ≡ none
        → body x.at (overlay (block x (first ms)) g) ≡ fault)
    → AreFresh (objects (ns ++ x ∷ ms)) h
    → overlay (objects (ns ++ x ∷ ms)) h p ≡ none
    → each body k (first (ns ++ x ∷ ms)) (overlay (objects (ns ++ x ∷ ms)) h) ≡ fault
each_faults body ns ms x p h zero l b e f n = absurd (omega arith)
each_faults body [] ms x p h (suc k) l b e f n =
    let rest = overlay (objects ms) h in
    let (now, _) = AreFresh-append (block x (first ms)) (objects ms) h f in
    let at = ap (λ g. g p) (sym (overlay-append (block x (first ms)) (objects ms) h)) ∙ n in
    rw (overlay-append (block x (first ms)) (objects ms) h) (
      each_fault body k x.at (first ms) (overlay (block x (first ms)) rest)
        (own-not-null x.own x.at (first ms ∷ x.fields) [] rest now)
        (load-middle x.own x.at 0 (first ms ∷ x.fields) (first ms) [] rest now refl)
        (e rest now at))
each_faults body (y ∷ ns) ms x p h (suc k) l (b, bs) e f n =
    let tail = objects (ns ++ x ∷ ms) in
    let next = first (ns ++ x ∷ ms) in
    let rest = overlay tail h in
    let (now, later) = AreFresh-append (block y next) tail h f in
    let at = ap (λ g. g p) (sym (overlay-append (block y next) tail h)) ∙ n in
    rw
      (
        overlay-append (block y next) tail h,
        each_round body k y.at next (overlay (block y next) rest) rest
            (own-not-null y.own y.at (next ∷ y.fields) [] rest now)
            (load-middle y.own y.at 0 (next ∷ y.fields) next [] rest now refl) (b next rest now),
      )
      (each_faults body ns ms x p h k (omega arith) bs e later
        (none-under (block y next) rest p now at))

-- An entry of the pool whose thread data is not allocated any more.
abbrev pub bare_node : (tde td status : ℕ) → Node
bare_node tde td status = record { at = tde; fields = td ∷ status ∷ []; own = [] }

bare-faults :
    (tde td status n : ℕ) (g : Heap)
    → AreFresh (block (bare_node tde td status) n) g
    → overlay (block (bare_node tde td status) n) g td ≡ none
    → stop_td_entry tde (overlay (block (bare_node tde td status) n) g) ≡ fault
unfolding stop_td_entry
bare-faults tde td status n g f e =
    rw
      (
        load-middle [] tde 1 (n ∷ td ∷ status ∷ []) td [] g f refl,
        free-none td (overlay ((tde, n ∷ td ∷ status ∷ []) ∷ []) g) e,
      )
      refl

waiting-none :
    (vs ws : List Waiting) (te td : ℕ) (words : Words) (h : Heap)
    → AreFresh
        (objects (map waiting_node (vs ++ record { entry = te; td = some td; words = words } ∷ ws)))
        h
    → h td ≡ none
waiting-none [] ws te td words h (_, e, f) =
    let n = first (map waiting_node ws) in
    none-under ((te, n ∷ td ∷ []) ∷ objects (map waiting_node ws)) h td f e
waiting-none (v ∷ vs) ws te td words h f =
    let w : Waiting = record { entry = te; td = some td; words = words } in
    let tail = map waiting_node (vs ++ w ∷ ws) in
    waiting-none vs ws te td words h
      ((AreFresh-append (block (waiting_node v) (first tail)) (objects tail) h f).1)

-- Where thread data of the pool still waits at the end, for a client that no thread has taken,
-- `td_stop_list` frees it, and `td_stop_td_pool` frees it a second time: the calls of `do_shutdown`
-- fault. The pool has the entries of `es` and `ds`, and between them that of the thread data; the
-- list has any other entries too.
pub stop_tds-waiting :
    (tlist head inuse cond mtx : ℕ) (vs ws : List Waiting) (te td : ℕ) (words : Words)
    (tdp list busy num tde status : ℕ) (es ds : List PoolTd) (k : ℕ) (g : Heap)
    → length vs + length ws + 1 < k
    → length es < k
    → AreFresh
        (waiting_objects tlist head inuse cond mtx
            (vs ++ record { entry = te; td = some td; words = words } ∷ ws)
          ++ pool_objects tdp list busy num
              (map td_node es ++ bare_node tde td status ∷ map td_node ds))
        g
    → stop_tds k tlist tdp (
        overlay
          (waiting_objects tlist head inuse cond mtx
              (vs ++ record { entry = te; td = some td; words = words } ∷ ws)
            ++ pool_objects tdp list busy num
                (map td_node es ++ bare_node tde td status ∷ map td_node ds))
          g)
      ≡ fault
unfolding stop_tds stop_td_pool
stop_tds-waiting tlist head inuse cond mtx vs ws te td words tdp list busy num tde status es ds k g
      l m f =
    let w : Waiting = record { entry = te; td = some td; words = words } in
    let x = bare_node tde td status in
    let nodes = map td_node es ++ x ∷ map td_node ds in
    let waiting = waiting_objects tlist head inuse cond mtx (vs ++ w ∷ ws) in
    let tail : Objects = (list, first nodes ∷ []) ∷ (tdp, list ∷ busy ∷ num ∷ []) ∷ [] in
    let pool = pool_objects tdp list busy num nodes in
    let (mine, theirs) = AreFresh-append waiting pool g f in
    let (_, _, (_, _, chain)) = mine in
    let last : Objects = (tlist, head ∷ inuse ∷ cond ∷ mtx ∷ []) ∷ [] in
    let entries = objects (map waiting_node (vs ++ w ∷ ws)) in
    let (listed, own) =
      AreFresh-append (entries ++ (head, first (map waiting_node (vs ++ w ∷ ws)) ∷ []) ∷ []) last
        (overlay pool g) chain in
    let (only, under) =
      AreFresh-append entries ((head, first (map waiting_node (vs ++ w ∷ ws)) ∷ []) ∷ [])
        (overlay last (overlay pool g)) listed in
    let gone = none-under last (overlay pool g) td own (
      none-under ((head, first (map waiting_node (vs ++ w ∷ ws)) ∷ []) ∷ [])
        (overlay last (overlay pool g)) td under (waiting-none vs ws te td words _ only)) in
    let flat = overlay-append (objects nodes) tail g in
    let (nodes_fresh, _) = AreFresh-append (objects nodes) tail g theirs in
    rw
      (
        overlay-append waiting pool g,
        stop_list_lem tlist head inuse cond mtx (vs ++ w ∷ ws) k (overlay pool g)
            (omega (arith, length-append vs (w ∷ ws))) mine,
        stop_pool-enter stop_td_entry tdp list busy num nodes k g theirs,
        each_faults stop_td_entry (map td_node es) (map td_node ds) x td (overlay tail g) k
            (omega (arith, length-map td_node es)) (entries-IsFreed es)
            (λ h fr n. bare-faults tde td status (first (map td_node ds)) h fr n) nodes_fresh
            (ap (λ h. h td) (sym flat) ∙ gone),
      )
      refl
