-- ===== src/Free/Lists.antt =====
-- Lists whose entries have nothing of their own: the peers of a torrent, the entries of a scrape, the
-- pairs and the hashes of a request.
use ttracker.Base.{
  ℕ, ◌<◌, ◌≡◌, refl, Option, none, some, List, [], ◌∷◌, map, All, length, arith, length-map, false,
  ◌==◌,
}
use ttracker.Heap.{null, Words, Heap, done, Effect, free, each, free_chain, unless_null}
use ttracker.Heap.Overlay.{Objects, overlay, AreFresh, overlay-append, AreFresh-append, free-first}
use ttracker.Heap.Each.{Node, first, objects, IsFreed, each_lem, chain_objects, free_chain_lem}
use ttracker.Free.{pointer}

-- An entry with the words behind its link.
pub record Plain : Type 0 where
  pub at : ℕ
  pub words : Words

abbrev pub plain_node : Plain → Node
plain_node p = record { at = p.at; fields = p.words; own = [] }

-- The head may have words behind its link.
abbrev pub headed_objects : ℕ → Words → List Plain → Objects
headed_objects head more ps = chain_objects head more (map plain_node ps)

abbrev pub plain_objects : ℕ → List Plain → Objects
plain_objects head ps = headed_objects head [] ps

free-IsFreed : (p : Plain) → IsFreed free (plain_node p)
free-IsFreed p n h (_, e, _) = free-first p.at (n ∷ p.words) h e

entries-IsFreed : (ps : List Plain) → All (IsFreed free) (map plain_node ps)
entries-IsFreed [] = tt
entries-IsFreed (p ∷ ps) = (free-IsFreed p, entries-IsFreed ps)

-- The loop leaves the head, with the link to an entry that is no more.
pub each-free :
    (head : ℕ) (more : Words) (ps : List Plain) (k : ℕ) (g : Heap)
    → length ps < k
    → AreFresh (headed_objects head more ps) g
    → each free k (first (map plain_node ps)) (overlay (headed_objects head more ps) g)
      ≡ done tt (overlay ((head, first (map plain_node ps) ∷ more) ∷ []) g)
each-free head more ps k g l f =
    let nodes = map plain_node ps in
    let end : Objects = (head, first nodes ∷ more) ∷ [] in
    let (now, _) = AreFresh-append (objects nodes) end g f in
    rw (overlay-append (objects nodes) end g) (
      each_lem free nodes (overlay end g) k (omega (arith, length-map plain_node ps))
        (entries-IsFreed ps) now)

unfoldable pub free_list : ℕ → ℕ → Effect
free_list k head = free_chain free k head

-- torrent.c: `scrape_stop_ctx`, on a context with the words list and size
unfoldable pub stop_ctx : ℕ → ℕ → Effect
stop_ctx k ctx = free_list k ctx

pub free_list_lem :
    (head : ℕ) (more : Words) (ps : List Plain) (k : ℕ) (g : Heap)
    → length ps < k
    → AreFresh (headed_objects head more ps) g
    → free_list k head (overlay (headed_objects head more ps) g) ≡ done tt g
unfolding free_list
free_list_lem head more ps k g l f =
    free_chain_lem free head more (map plain_node ps) k g (omega (arith, length-map plain_node ps))
      (entries-IsFreed ps) f

-- On a heap that has the context of a scrape with any entries, beside any objects at other
-- addresses, `scrape_stop_ctx` ends with the entries and the context freed once each, and leaves
-- exactly the other objects. Fuel above the number of entries is enough.
pub stop_ctx_lem :
    (ctx size : ℕ) (ps : List Plain) (k : ℕ) (g : Heap)
    → length ps < k
    → AreFresh (headed_objects ctx (size ∷ []) ps) g
    → stop_ctx k ctx (overlay (headed_objects ctx (size ∷ []) ps) g) ≡ done tt g
unfolding stop_ctx
stop_ctx_lem ctx size ps k g l f = free_list_lem ctx (size ∷ []) ps k g l f

-- A list that may be missing.
abbrev pub optional_objects : Option ℕ → List Plain → Objects
optional_objects none ps = []
optional_objects (some head) ps = plain_objects head ps

pub unless_null-free_list :
    (head : Option ℕ) (ps : List Plain) (k : ℕ) (g : Heap)
    → length ps < k
    → AreFresh (optional_objects head ps) g
    → unless_null (pointer head) (free_list k (pointer head)) (overlay (optional_objects head ps) g)
      ≡ done tt g
unfolding unless_null
unless_null-free_list none ps k g l f = refl
unless_null-free_list (some head) ps k g l f =
    let (_, (n, _, _)) =
      AreFresh-append (objects (map plain_node ps)) ((head, first (map plain_node ps) ∷ []) ∷ []) g
        f in
    let ne : (head == null) ≡ false = ground arith in rw ne (free_list_lem head [] ps k g l f)
