-- ===== src/Heap/Overlay.antt =====
-- Heaps with the objects of a structure beside others, and what the commands do on them.
use ttracker.Base.{
  ℕ, ◌≡◌, ◌≢◌, refl, sym, ap, fun_ext, subst, append_assoc, ◌∙◌, Option, none, some, List, [], ◌∷◌,
  ◌++◌, set, get_elem?, arith,
}
use ttracker.Heap.{null, Words, Heap, done, fault, put, load, set_word, free}

abbrev pub Objects : Type 0
Objects = List (ℕ × Words)

-- The heap `g` with these objects on top.
abbrev pub overlay : Objects → Heap → Heap
overlay [] g = g
overlay ((p, o) ∷ xs) g = put (overlay xs g) p (some o)

-- The objects are at distinct addresses that `g` does not use, and none of them is NULL.
abbrev pub AreFresh : Objects → Heap → Type 0
AreFresh [] g = Unit {0}
AreFresh ((p, o) ∷ xs) g = (p ≢ null) × (overlay xs g p ≡ none) × AreFresh xs g

pub overlay-append : (xs ys : Objects) (g : Heap) → overlay (xs ++ ys) g ≡ overlay xs (overlay ys g)
overlay-append [] ys g = refl
overlay-append ((p, o) ∷ xs) ys g = ap (λ h. put h p (some o)) (overlay-append xs ys g)

pub AreFresh-append :
    (xs ys : Objects) (g : Heap)
    → AreFresh (xs ++ ys) g
    → AreFresh xs (overlay ys g) × AreFresh ys g
AreFresh-append [] ys g f = (tt, f)
AreFresh-append ((p, o) ∷ xs) ys g (n, e, f) =
    let (a, b) = AreFresh-append xs ys g f in
    ((n, ap (λ h. h p) (sym (overlay-append xs ys g)) ∙ e, a), b)

put-back : (h : Heap) (p : ℕ) (o : Words) → h p ≡ none → put (put h p (some o)) p none ≡ h
unfolding put
put-back h p o e = fun_ext λ a. ground (arith, e)

put-put : (h : Heap) (p : ℕ) (o o' : Option Words) → put (put h p o) p o' ≡ put h p o'
unfolding put
put-put h p o o' = fun_ext λ a. ground arith

pub put_comm :
    (h : Heap) (p q : ℕ) (o o' : Option Words) → p ≢ q → put (put h p o) q o' ≡ put (put h q o') p o
unfolding put
put_comm h p q o o' n = fun_ext λ a. ground arith

pub put-same : (h : Heap) (p : ℕ) (o : Option Words) → put h p o p ≡ o
unfolding put
put-same h p o = ground arith

pub put-other : (h : Heap) (p q : ℕ) (o : Option Words) → p ≢ q → put h p o q ≡ h q
unfolding put
put-other h p q o n = ground arith

-- The object that stands first is freed.
pub free-first : (p : ℕ) (o : Words) (h : Heap) → h p ≡ none → free p (put h p (some o)) ≡ done tt h
unfolding free
free-first p o h e = rw (free, put-same h p (some o), put-back h p o e) refl

-- What is not allocated cannot be freed.
pub free-none : (p : ℕ) (h : Heap) → h p ≡ none → free p h ≡ fault
unfolding free
free-none p h e = rw (free, e) refl

-- A fresh object is at another address than what the rest holds.
ne_of_fresh : (p q : ℕ) (h : Heap) (o : Words) → h p ≡ none → h q ≡ some o → p ≢ q
ne_of_fresh p q h o e f s = cc

pub ne_of_put : (h : Heap) (q p : ℕ) (r : Words) → put h q (some r) p ≡ none → q ≢ p
unfolding put
ne_of_put h q p r e d = ground arith

pub overlay-middle :
    (xs : Objects) (p : ℕ) (o : Words) (ys : Objects) (g : Heap)
    → AreFresh (xs ++ (p, o) ∷ ys) g
    → overlay (xs ++ (p, o) ∷ ys) g p ≡ some o
overlay-middle [] p o ys g f = put-same (overlay ys g) p (some o)
overlay-middle ((q, r) ∷ xs) p o ys g (n, e, f) =
    let at = overlay-middle xs p o ys g f in
    put-other (overlay (xs ++ (p, o) ∷ ys) g) q p (some r)
      (ne_of_fresh q p (overlay (xs ++ (p, o) ∷ ys) g) o e at)
    ∙ at

-- What fresh objects lie on is still there.
pub overlay-past :
    (xs : Objects) (p : ℕ) (o : Words) (h : Heap)
    → AreFresh xs h
    → h p ≡ some o
    → overlay xs h p ≡ some o
overlay-past [] p o h f e = e
overlay-past ((q, r) ∷ xs) p o h (n, u, f) e =
    let at = overlay-past xs p o h f e in
    put-other (overlay xs h) q p (some r) (ne_of_fresh q p (overlay xs h) o u at) ∙ at

put-middle :
    (xs : Objects) (p : ℕ) (o o' : Words) (ys : Objects) (g : Heap)
    → AreFresh (xs ++ (p, o) ∷ ys) g
    → put (overlay (xs ++ (p, o) ∷ ys) g) p (some o') ≡ overlay (xs ++ (p, o') ∷ ys) g
put-middle [] p o o' ys g f = put-put (overlay ys g) p (some o) (some o')
put-middle ((q, r) ∷ xs) p o o' ys g (n, e, f) =
    put_comm (overlay (xs ++ (p, o) ∷ ys) g) q p (some r) (some o')
      (ne_of_fresh q p (overlay (xs ++ (p, o) ∷ ys) g) o e (overlay-middle xs p o ys g f))
    ∙ ap (λ h. put h q (some r)) (put-middle xs p o o' ys g f)

pub load-at :
    (p i : ℕ) (h : Heap) (o : Words) (v : ℕ)
    → h p ≡ some o
    → get_elem? o i ≡ some v
    → load p i h ≡ done v h
unfolding load
load-at p i h o v e w = rw (load, e, w) refl

pub load-middle :
    (xs : Objects) (p i : ℕ) (o : Words) (v : ℕ) (ys : Objects) (g : Heap)
    → AreFresh (xs ++ (p, o) ∷ ys) g
    → get_elem? o i ≡ some v
    → load p i (overlay (xs ++ (p, o) ∷ ys) g) ≡ done v (overlay (xs ++ (p, o) ∷ ys) g)
load-middle xs p i o v ys g f w = load-at p i _ o v (overlay-middle xs p o ys g f) w

pub load-past :
    (xs : Objects) (p i : ℕ) (o : Words) (v : ℕ) (h : Heap)
    → AreFresh xs h
    → h p ≡ some o
    → get_elem? o i ≡ some v
    → load p i (overlay xs h) ≡ done v (overlay xs h)
load-past xs p i o v h f e w = load-at p i _ o v (overlay-past xs p o h f e) w

pub set_word-middle :
    (xs : Objects) (p i v : ℕ) (o : Words) (ys : Objects) (g : Heap)
    → AreFresh (xs ++ (p, o) ∷ ys) g
    → set_word p i v (overlay (xs ++ (p, o) ∷ ys) g)
      ≡ done tt (overlay (xs ++ (p, set o i v) ∷ ys) g)
unfolding set_word
set_word-middle xs p i v o ys g f =
    rw (set_word, overlay-middle xs p o ys g f, put-middle xs p o (set o i v) ys g f) refl

put-none :
    (h k : Heap) (q p : ℕ) (o o' : Words)
    → (h p ≡ none → k p ≡ none)
    → put h q (some o) p ≡ none
    → put k q (some o') p ≡ none
unfolding put
put-none h k q p o o' same e = ground (arith, same)

-- The words of an object do not matter to what is fresh.
overlay-none :
    (xs : Objects) (p q : ℕ) (o o' : Words) (ys : Objects) (g : Heap)
    → overlay (xs ++ (p, o) ∷ ys) g q ≡ none
    → overlay (xs ++ (p, o') ∷ ys) g q ≡ none
overlay-none [] p q o o' ys g e = put-none (overlay ys g) (overlay ys g) p q o o' (λ h. h) e
overlay-none ((r, w) ∷ xs) p q o o' ys g e =
    put-none (overlay (xs ++ (p, o) ∷ ys) g) (overlay (xs ++ (p, o') ∷ ys) g) r q w w
      (overlay-none xs p q o o' ys g) e

pub AreFresh-set :
    (xs : Objects) (p : ℕ) (o o' : Words) (ys : Objects) (g : Heap)
    → AreFresh (xs ++ (p, o) ∷ ys) g
    → AreFresh (xs ++ (p, o') ∷ ys) g
AreFresh-set [] p o o' ys g f = f
AreFresh-set ((q, r) ∷ xs) p o o' ys g (n, e, f) =
    (n, overlay-none xs p q o o' ys g e, AreFresh-set xs p o o' ys g f)

-- A fresh object on top of others may as well lie under them.
pub put-under :
    (xs : Objects) (p : ℕ) (o : Words) (h : Heap)
    → AreFresh xs h
    → overlay xs h p ≡ none
    → (put (overlay xs h) p (some o) ≡ overlay xs (put h p (some o)))
      × AreFresh xs (put h p (some o))
      × (h p ≡ none)
put-under [] p o h f e = (refl, tt, e)
put-under ((q, r) ∷ xs) p o h (n, u, f) e =
    let apart = ne_of_put (overlay xs h) q p r e in
    let (same, fresh, free) =
      put-under xs p o h f (sym (put-other (overlay xs h) q p (some r) apart) ∙ e) in
    (
      put_comm (overlay xs h) q p (some r) (some o) apart ∙ ap (λ k. put k q (some r)) same,
      (
        n,
        ap (λ k. k q) (sym same) ∙ put-other (overlay xs h) p q (some o) (λ d. apart (sym d)) ∙ u,
        fresh,
      ),
      free,
    )

-- The same behind a list and its head, which are not flattened.
module _ (xs : Objects) (q : ℕ) (r : Words) (p : ℕ) (o : Words) (g : Heap) where
  pub load-third :
      (i v : ℕ)
      → AreFresh (xs ++ (q, r) ∷ (p, o) ∷ []) g
      → get_elem? o i ≡ some v
      → load p i (overlay (xs ++ (q, r) ∷ (p, o) ∷ []) g)
        ≡ done v (overlay (xs ++ (q, r) ∷ (p, o) ∷ []) g)
  load-third i v f w =
      let flat = append_assoc xs ((q, r) ∷ []) ((p, o) ∷ []) in
      rw (← flat)
        (load-middle (xs ++ (q, r) ∷ []) p i o v [] g (subst (λ zs. AreFresh zs g) (sym flat) f) w)

  pub set_word-third :
      (i v : ℕ)
      → AreFresh (xs ++ (q, r) ∷ (p, o) ∷ []) g
      → (set_word p i v (overlay (xs ++ (q, r) ∷ (p, o) ∷ []) g)
          ≡ done tt (overlay (xs ++ (q, r) ∷ (p, set o i v) ∷ []) g))
        × AreFresh (xs ++ (q, r) ∷ (p, set o i v) ∷ []) g
  set_word-third i v f =
      let flat = append_assoc xs ((q, r) ∷ []) ((p, o) ∷ []) in
      let flat' = append_assoc xs ((q, r) ∷ []) ((p, set o i v) ∷ []) in
      let fresh = subst (λ zs. AreFresh zs g) (sym flat) f in
      (
        rw (← flat, ← flat') (set_word-middle (xs ++ (q, r) ∷ []) p i v o [] g fresh),
        subst (λ zs. AreFresh zs g) flat'
            (AreFresh-set (xs ++ (q, r) ∷ []) p o (set o i v) [] g fresh),
      )
