-- ===== src/Free.antt =====
-- The functions that free a structure. Each child has those of one structure, and shows what they do
-- on a heap that has its objects beside any others.
pub mod Pools
pub mod Buffers
pub mod ThreadData
pub mod Waiting
pub mod Lists
pub mod Torrents
pub mod Jobs
pub mod Values
pub mod Twice
pub mod Shutdown
use ttracker.Base.{
  ℕ, ◌≡◌, ◌≢◌, refl, false, Option, none, some, [], ◌∷◌, ◌++◌, ◌==◌, arith, sym, subst,
  append_assoc,
}
use ttracker.Heap.{null, Words, Heap, done, Effect, load, set_word, free, unless_null, ◌>>=◌, skip}
use ttracker.Heap.Overlay.{
  Objects, overlay, AreFresh, free-first, load-middle, set_word-middle, AreFresh-set,
}

-- A pointer that may be NULL, and the object that it points to.
abbrev pub pointer : Option ℕ → ℕ
pointer none = null
pointer (some p) = p

abbrev pub pointee : Option ℕ → Words → Objects
pointee none w = []
pointee (some p) w = (p, w) ∷ []

-- `if (p != NULL) free(p);`
pub unless_null-free :
    (p : Option ℕ) (w : Words) (g : Heap)
    → AreFresh (pointee p w) g
    → unless_null (pointer p) (free (pointer p)) (overlay (pointee p w) g) ≡ done tt g
unfolding unless_null
unless_null-free none w g f = refl
unless_null-free (some p) w g (n, e, _) =
    let ne : (p == null) ≡ false = ground arith in rw ne (free-first p w g e)

-- LIST_REMOVE of the first entry of a list: the head gets the next one. The link back, which the
-- macro sets in the next entry, is left out.
unfoldable pub list_remove : ℕ → ℕ → Effect
list_remove head entry = do n ← load entry 0; set_word head 0 n

pub list_remove_lem :
    (head entry n v : ℕ) (fields : Words) (xs rs : Objects) (h : Heap)
    → AreFresh (xs ++ ((entry, n ∷ fields) ∷ rs ++ (head, v ∷ []) ∷ [])) h
    → AreFresh (xs ++ ((entry, n ∷ fields) ∷ rs ++ (head, n ∷ []) ∷ [])) h
      × (list_remove head entry
            (overlay (xs ++ ((entry, n ∷ fields) ∷ rs ++ (head, v ∷ []) ∷ [])) h)
          ≡ done tt (overlay (xs ++ ((entry, n ∷ fields) ∷ rs ++ (head, n ∷ []) ∷ [])) h))
unfolding list_remove
list_remove_lem head entry n v fields xs rs h f =
    let e : Objects = (entry, n ∷ fields) ∷ rs in
    let here = append_assoc xs e ((head, v ∷ []) ∷ []) in
    let there = append_assoc xs e ((head, n ∷ []) ∷ []) in
    let fresh = subst (λ zs. AreFresh zs h) (sym here) f in
    (
      subst (λ zs. AreFresh zs h) there (AreFresh-set (xs ++ e) head (v ∷ []) (n ∷ []) [] h fresh),
      rw
          (
            load-middle xs entry 0 (n ∷ fields) n (rs ++ (head, v ∷ []) ∷ []) h f refl,
            ← here,
            set_word-middle (xs ++ e) head 0 n (v ∷ []) [] h fresh,
            there,
          )
          refl,
    )
