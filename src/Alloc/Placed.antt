-- ===== src/Alloc/Placed.antt =====
-- Objects that are allocated one by one, and their words written, for mem.c's `xmalloc`.
use ttracker.Base.{ℕ, ◌≡◌, refl, sym, ap, ◌∙◌, inl, inr, [], ◌∷◌, ◌++◌, length, set, arith}
use ttracker.Heap.{Words, Heap, Command, set_word, ◌>>=◌}
use ttracker.Heap.Overlay.{Objects, overlay, AreFresh, AreFresh-set, set_word-middle}
use ttracker.Alloc.{Malloc, IsMalloc, xmalloc}
use ttracker.Alloc.Outcome.{Gives, follow, xmalloc-Gives, one-word}

-- The heap is `g` with these objects on it.
abbrev pub Holds : Objects → Heap → Heap → Type 0
Holds xs g h = (h ≡ overlay xs g) × AreFresh xs g

pub four-words :
    (w : Words) → length w ≡ 4 → (a : ℕ) × (b : ℕ) × (c : ℕ) × (d : ℕ) × (w ≡ a ∷ b ∷ c ∷ d ∷ [])
four-words [] l = absurd (omega arith)
four-words (a ∷ []) l = absurd (omega arith)
four-words (a ∷ b ∷ []) l = absurd (omega arith)
four-words (a ∷ b ∷ c ∷ []) l = absurd (omega arith)
four-words (a ∷ b ∷ c ∷ d ∷ []) l = (a, b, c, d, refl)
four-words (a ∷ b ∷ c ∷ d ∷ e ∷ w) l = absurd (omega arith)

module _ (malloc : Malloc) (is : IsMalloc malloc) (g : Heap) where
  -- One more object
  pub allocate :
      (n : ℕ) (xs : Objects) (h : Heap)
      → Holds xs g h
      → Gives malloc g
          (xmalloc malloc n)
          h
          (λ p h'. (w : Words) × (length w ≡ n) × Holds ((p, w) ∷ xs) g h')
  allocate n xs h (e, f) = elim (xmalloc-Gives malloc is g n xs h e) [
    | inl x ↦ inl x
    | inr (p, h', r, (w, s, l, (ne, free))) ↦ inr (
      p,
      h',
      r,
      (w, l, (s ∙ ap (overlay ((p, w) ∷ [])) e, (ne, ap (λ k. k p) (sym e) ∙ free, f))),
    )
  ]

  -- A word of one of them is written.
  pub assign :
      {B : Type 0}
      → (xs : Objects) (p i v : ℕ) (o : Words) (ys : Objects) (h : Heap)
      → (k : Unit {0} → Command B) → (R : B → Heap → Type 0) → Holds (xs ++ (p, o) ∷ ys) g h
      → ((h' : Heap) → Holds (xs ++ (p, set o i v) ∷ ys) g h' → Gives malloc g (k tt) h' R)
      → Gives malloc g (set_word p i v >>= k) h R
  assign xs p i v o ys h k R (e, f) next =
      follow malloc g (set_word p i v) k h tt _ R
        (ap (set_word p i v) e ∙ set_word-middle xs p i v o ys g f)
        (next _ (refl, AreFresh-set xs p o (set o i v) ys g f))

  empty : (w : Words) → length w ≡ 0 → w ≡ []
  empty [] l = refl
  empty (x ∷ w) l = absurd (omega arith)

  -- An object with no words
  pub allocate_opaque :
      (xs : Objects) (h : Heap)
      → Holds xs g h
      → Gives malloc g (xmalloc malloc 0) h (λ p h'. Holds ((p, []) ∷ xs) g h')
  allocate_opaque xs h at = elim (allocate 0 xs h at) [
    | inl x ↦ inl x
    | inr (p, h', r, (w, l, s)) ↦ inr (p, h', r, rw (sym (empty w l)) s)
  ]

  pub allocate_head :
      (xs : Objects) (h : Heap)
      → Holds xs g h
      → Gives malloc g (xmalloc malloc 1) h (λ p h'. (x : ℕ) × Holds ((p, x ∷ []) ∷ xs) g h')
  allocate_head xs h at = elim (allocate 1 xs h at) [
    | inl x ↦ inl x
    | inr (p, h', r, (w, l, s)) ↦ let (x, e) = one-word w l in inr (p, h', r, (x, rw (sym e) s))
  ]
