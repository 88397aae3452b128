-- ===== src/Free/Waiting.antt =====
-- work.c: `td_stop_list`, which frees the list of thread data that wait.
use ttracker.Base.{
  ℕ, ◌<◌, ◌≡◌, refl, subst, Option, List, [], ◌∷◌, ◌++◌, map, All, length, arith, append_assoc,
  length-map,
}
use ttracker.Heap.{
  null, Words, Heap, done, Effect, load, set_word, free, unless_null, each, ◌>>=◌, ◌>>◌,
}
use ttracker.Heap.Overlay.{
  Objects, overlay, AreFresh, overlay-append, AreFresh-append, free-first, load-middle,
  set_word-middle,
}
use ttracker.Heap.Each.{Node, first, objects}
use ttracker.Heap.Removing.{IsRemoved, list_objects, each_removing}
use ttracker.Free.{pointer, pointee, unless_null-free, list_remove, list_remove_lem}

-- The body of the loop, for an entry with the word td.
unfoldable pub stop_waiting : ℕ → ℕ → Effect
stop_waiting head te = do td ← load te 1; unless_null td (free td); list_remove head te; free te

-- For a list with the words td_list, inuse, cond and mtx. The fuel is for as many rounds.
unfoldable pub stop_list : ℕ → ℕ → Effect
stop_list k tlist = do
  mtx ← load tlist 3
  free mtx
  cond ← load tlist 2
  free cond
  head ← load tlist 0
  te ← load head 0
  each (stop_waiting head) k te
  head' ← load tlist 0
  set_word head' 0 null
  head'' ← load tlist 0
  free head''
  free tlist

-- An entry of the list, with its thread data if it has any.
pub record Waiting : Type 0 where
  pub entry : ℕ
  pub td : Option ℕ
  pub words : Words

abbrev pub waiting_node : Waiting → Node
waiting_node e = record { at = e.entry; fields = pointer e.td ∷ []; own = pointee e.td e.words }

stop_waiting-IsRemoved :
    (head : ℕ) (e : Waiting) → IsRemoved (stop_waiting head) head (waiting_node e)
unfolding stop_waiting
stop_waiting-IsRemoved head e n v rs h f =
    let w : Words = n ∷ pointer e.td ∷ [] in
    let own = pointee e.td e.words in
    let rest = rs ++ (head, v ∷ []) ∷ [] in
    let flat = append_assoc own ((e.entry, w) ∷ []) rest in
    let fresh = subst (λ zs. AreFresh zs h) flat f in
    let (now, later) = AreFresh-append own ((e.entry, w) ∷ rest) h fresh in
    let (after, removed) = list_remove_lem head e.entry n v (pointer e.td ∷ []) [] rs h later in
    rw
      (
        flat,
        load-middle own e.entry 1 w (pointer e.td) rest h fresh refl,
        overlay-append own ((e.entry, w) ∷ rest) h,
        unless_null-free e.td e.words (overlay ((e.entry, w) ∷ rest) h) now,
        removed,
      )
      (free-first e.entry w (overlay (rs ++ (head, n ∷ []) ∷ []) h) (after.1))

entries-IsRemoved :
    (head : ℕ) (es : List Waiting) → All (IsRemoved (stop_waiting head) head) (map waiting_node es)
entries-IsRemoved head [] = tt
entries-IsRemoved head (e ∷ es) = (stop_waiting-IsRemoved head e, entries-IsRemoved head es)

-- The objects of the list at `tlist`, in the order in which they are freed.
abbrev pub waiting_objects : (tlist head inuse cond mtx : ℕ) → List Waiting → Objects
waiting_objects tlist head inuse cond mtx es =
    (mtx, []) ∷ (cond, []) ∷ list_objects head (map waiting_node es)
    ++ (tlist, head ∷ inuse ∷ cond ∷ mtx ∷ []) ∷ []

-- On a heap that has the list of waiting thread data with any entries, each with its own thread data
-- or none, beside any objects at other addresses, `td_stop_list` ends with every object of the list
-- and the thread data freed once, and leaves exactly the other objects. Fuel above the number of
-- entries is enough.
pub stop_list_lem :
    (tlist head inuse cond mtx : ℕ) (es : List Waiting) (k : ℕ) (g : Heap)
    → length es < k
    → AreFresh (waiting_objects tlist head inuse cond mtx es) g
    → stop_list k tlist (overlay (waiting_objects tlist head inuse cond mtx es) g) ≡ done tt g
unfolding stop_list
stop_list_lem tlist head inuse cond mtx es k g l (mn, me, (cn, ce, f)) =
    let nodes = map waiting_node es in
    let w : Words = head ∷ inuse ∷ cond ∷ mtx ∷ [] in
    let chain = list_objects head nodes in
    let top = overlay (chain ++ (tlist, w) ∷ []) g in
    let own = overlay ((tlist, w) ∷ []) g in
    let (now, (tn, te, _)) = AreFresh-append chain ((tlist, w) ∷ []) g f in
    let (_, (hn, he, _)) =
      AreFresh-append (objects nodes) ((head, first nodes ∷ []) ∷ []) own now in
    rw
      (
        load-middle ((mtx, []) ∷ (cond, []) ∷ chain) tlist 3 w mtx [] g (mn, me, (cn, ce, f)) refl,
        free-first mtx [] (overlay ((cond, []) ∷ chain ++ (tlist, w) ∷ []) g) me,
        load-middle ((cond, []) ∷ chain) tlist 2 w cond [] g (cn, ce, f) refl,
        free-first cond [] top ce,
        load-middle chain tlist 0 w head [] g f refl,
        overlay-append chain ((tlist, w) ∷ []) g,
        load-middle (objects nodes) head 0 (first nodes ∷ []) (first nodes) [] own now refl,
        each_removing (stop_waiting head) head nodes own k
            (omega (arith, length-map waiting_node es)) (entries-IsRemoved head es) now,
        load-middle ((head, null ∷ []) ∷ []) tlist 0 w head [] g (hn, he, (tn, te, tt)) refl,
        set_word-middle [] head 0 null (null ∷ []) ((tlist, w) ∷ []) g (hn, he, (tn, te, tt)),
        load-middle ((head, null ∷ []) ∷ []) tlist 0 w head [] g (hn, he, (tn, te, tt)) refl,
        free-first head (null ∷ []) own he,
      )
      (free-first tlist w g te)
