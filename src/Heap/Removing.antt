-- ===== src/Heap/Removing.antt =====
-- A loop that takes the first entry out of its list before it frees it, so that the head of the list
-- follows.
use ttracker.Base.{
  ℕ, zero, suc, ◌<◌, ◌≡◌, refl, sym, subst, List, [], ◌∷◌, ◌++◌, All, append_assoc, length, arith,
}
use ttracker.Heap.{null, Heap, done, Effect, load, each}
use ttracker.Heap.Overlay.{Objects, overlay, AreFresh, AreFresh-append, AreFresh-set, load-middle}
use ttracker.Heap.Each.{Node, first, block, objects, own-not-null, each-null, each_round}

-- The body frees the entry and what is its own, and stores the entry's link in the head.
abbrev pub IsRemoved : (ℕ → Effect) → ℕ → Node → Type 0
IsRemoved body head x =
    (n v : ℕ) (rs : Objects) (h : Heap)
    → AreFresh (block x n ++ (rs ++ (head, v ∷ []) ∷ [])) h
    → body x.at (overlay (block x n ++ (rs ++ (head, v ∷ []) ∷ [])) h)
      ≡ done tt (overlay (rs ++ (head, n ∷ []) ∷ []) h)

-- The objects of a list with its head.
abbrev pub list_objects : ℕ → List Node → Objects
list_objects head nodes = objects nodes ++ (head, first nodes ∷ []) ∷ []

pub each_removing :
    (body : ℕ → Effect) (head : ℕ) (nodes : List Node) (g : Heap) (k : ℕ)
    → length nodes < k
    → All (IsRemoved body head) nodes
    → AreFresh (list_objects head nodes) g
    → each body k (first nodes) (overlay (list_objects head nodes) g)
      ≡ done tt (overlay ((head, null ∷ []) ∷ []) g)
each_removing body head nodes g zero l b f = absurd (omega arith)
each_removing body head [] g (suc k) l b f = each-null body k (overlay ((head, null ∷ []) ∷ []) g)
each_removing body head (x ∷ xs) g (suc k) l (b, bs) f =
    let n = first xs in
    let rest = objects xs ++ (head, x.at ∷ []) ∷ [] in
    let entry : ℕ × List ℕ = (x.at, n ∷ x.fields) in
    let split = append_assoc (block x n) (objects xs) ((head, x.at ∷ []) ∷ []) in
    let fresh = subst (λ zs. AreFresh zs g) split f in
    let flat = append_assoc x.own (entry ∷ []) rest in
    let fresh_flat = subst (λ zs. AreFresh zs g) flat fresh in
    let (_, later) = AreFresh-append (block x n) rest g fresh in
    let at =
      subst (λ zs. load x.at 0 (overlay zs g) ≡ done n (overlay zs g)) (sym flat)
        (load-middle x.own x.at 0 (entry.1) n rest g fresh_flat refl) in
    rw
      (
        split,
        each_round body k x.at n (overlay (block x n ++ rest) g) (overlay (list_objects head xs) g)
            (own-not-null x.own x.at (entry.1) rest g fresh_flat) at
            (b n x.at (objects xs) g fresh),
      )
      (each_removing body head xs g k (omega arith) bs
        (AreFresh-set (objects xs) head (x.at ∷ []) (n ∷ []) [] g later))
