-- ===== src/Heap/Each.antt =====
-- A list of entries on the heap, and the loop that frees it.
use ttracker.Base.{
  ℕ, zero, suc, ◌<◌, ◌≡◌, refl, false, List, [], ◌∷◌, ◌++◌, ◌==◌, All, length, arith,
}
use ttracker.Heap.{null, Words, Heap, done, fault, Effect, load, each, free_chain}
use ttracker.Heap.Overlay.{
  Objects, overlay, AreFresh, overlay-append, AreFresh-append, load-middle, set_word-middle,
  free-first,
}

-- An entry: its address, its words behind the link, and the objects that are its own, in the order
-- in which they are freed.
pub record Node : Type 0 where
  pub at : ℕ
  pub fields : Words
  pub own : Objects

abbrev pub first : List Node → ℕ
first [] = null
first (x ∷ xs) = x.at

-- The objects of an entry with its link, and those of a list.
abbrev pub block : Node → ℕ → Objects
block x n = x.own ++ (x.at, n ∷ x.fields) ∷ []

abbrev pub objects : List Node → Objects
objects [] = []
objects (x ∷ xs) = block x (first xs) ++ objects xs

-- The body of a loop frees exactly the entry and what is its own.
abbrev pub IsFreed : (ℕ → Effect) → Node → Type 0
IsFreed body x =
    (n : ℕ) (h : Heap) → AreFresh (block x n) h → body x.at (overlay (block x n) h) ≡ done tt h

pub own-not-null :
    (xs : Objects) (p : ℕ) (o : Words) (ys : Objects) (g : Heap)
    → AreFresh (xs ++ (p, o) ∷ ys) g
    → (p == null) ≡ false
own-not-null [] p o ys g (n, _, _) = ground arith
own-not-null (x ∷ xs) p o ys g (_, _, f) = own-not-null xs p o ys g f

pub each-null : (body : ℕ → Effect) (k : ℕ) (h : Heap) → each body (suc k) null h ≡ done tt h
unfolding each
each-null body k h = refl

-- One round.
pub each_round :
    (body : ℕ → Effect) (k p n : ℕ) (h h' : Heap)
    → (p == null) ≡ false
    → load p 0 h ≡ done n h
    → body p h ≡ done tt h'
    → each body (suc k) p h ≡ each body k n h'
unfolding each
each_round body k p n h h' e l b = rw (each, e, l, b) refl

pub each_fault :
    (body : ℕ → Effect) (k p n : ℕ) (h : Heap)
    → (p == null) ≡ false
    → load p 0 h ≡ done n h
    → body p h ≡ fault
    → each body (suc k) p h ≡ fault
unfolding each
each_fault body k p n h e l b = rw (each, e, l, b) refl

pub each_lem :
    (body : ℕ → Effect) (nodes : List Node) (g : Heap) (k : ℕ)
    → length nodes < k
    → All (IsFreed body) nodes
    → AreFresh (objects nodes) g
    → each body k (first nodes) (overlay (objects nodes) g) ≡ done tt g
each_lem body nodes g zero l b f = absurd (omega arith)
each_lem body [] g (suc k) l b f = each-null body k g
each_lem body (x ∷ xs) g (suc k) l (b, bs) f =
    let h = overlay (objects xs) g in
    let n = first xs in
    let (now, later) = AreFresh-append (block x n) (objects xs) g f in
    rw
      (
        overlay-append (block x n) (objects xs) g,
        each_round body k x.at n (overlay (block x n) h) h
            (own-not-null x.own x.at (n ∷ x.fields) [] h now)
            (load-middle x.own x.at 0 (n ∷ x.fields) n [] h now refl) (b n h now),
      )
      (each_lem body xs g k (omega arith) bs later)

-- The list and its head, which may have words behind its link.
abbrev pub chain_objects : ℕ → Words → List Node → Objects
chain_objects head more nodes = objects nodes ++ (head, first nodes ∷ more) ∷ []

pub free_chain_lem :
    (body : ℕ → Effect) (head : ℕ) (more : Words) (nodes : List Node) (k : ℕ) (g : Heap)
    → length nodes < k
    → All (IsFreed body) nodes
    → AreFresh (chain_objects head more nodes) g
    → free_chain body k head (overlay (chain_objects head more nodes) g) ≡ done tt g
unfolding free_chain
free_chain_lem body head more nodes k g l b f =
    let n = first nodes in
    let end : Objects = (head, n ∷ more) ∷ [] in
    let (now, (hn, he, _)) = AreFresh-append (objects nodes) end g f in
    rw
      (
        load-middle (objects nodes) head 0 (n ∷ more) n [] g f refl,
        overlay-append (objects nodes) end g,
        each_lem body nodes (overlay end g) k l b now,
        set_word-middle [] head 0 null (n ∷ more) [] g (hn, he, tt),
      )
      (free-first head (null ∷ more) g he)
