-- ===== src/Alloc/Outcome.antt =====
-- Commands that end with a result, or with the program.
use ttracker.Base.{
  sym, ap, ◌∙◌, ◌++◌, ℕ, ◌≡◌, ◌≢◌, ◌⊎◌, inl, inr, refl, none, [], ◌∷◌, length, arith, Option-cases,
}
use ttracker.Heap.{null, Words, Heap, done, exited, Command, ◌>>=◌}
use ttracker.Heap.Overlay.{Objects, overlay, overlay-append, set_word-middle}
use ttracker.Alloc.{Malloc, IsMalloc, xmalloc, make_buffer}

-- The command ends with a result, or the program with `exit`, and then malloc has given NULL: for an
-- object of `n` words, on the heap `g` with some objects on top. `g` is the heap at the start.
abbrev pub Gives : {A : Type 0} → Malloc → Heap → Command A → Heap → (A → Heap → Type 0) → Type 0
Gives {A} malloc g m h Q =
    ((m h ≡ exited) × (n : ℕ) × (xs : Objects) × (malloc n (overlay xs g) ≡ none))
    ⊎ ((a : A) × (h' : Heap) × (m h ≡ done a h') × Q a h')

module _ (malloc : Malloc) (g : Heap) {A B : Type 0} where
  pub bind :
      (m : Command A) (k : A → Command B) (h : Heap) (Q : A → Heap → Type 0) (R : B → Heap → Type 0)
      → Gives malloc g m h Q
      → ((a : A) (h' : Heap) → Q a h' → Gives malloc g (k a) h' R)
      → Gives malloc g (m >>= k) h R
  bind m k h Q R (inl (e, n, xs, full)) next = inl (rw e refl, n, xs, full)
  bind m k h Q R (inr (a, h', e, q)) next = rw e (next a h' q)

  pub follow :
      (m : Command A) (k : A → Command B) (h : Heap) (a : A) (h' : Heap) (R : B → Heap → Type 0)
      → m h ≡ done a h'
      → Gives malloc g (k a) h' R
      → Gives malloc g (m >>= k) h R
  follow m k h a h' R e next = rw e next

-- What is fresh on a heap.
abbrev pub Fresh : ℕ → Heap → Type 0
Fresh p h = (p ≢ null) × (h p ≡ none)

pub one-word : (w : Words) → length w ≡ 1 → (x : ℕ) × (w ≡ x ∷ [])
one-word [] l = absurd (omega arith)
one-word (x ∷ []) l = (x, refl)
one-word (x ∷ y ∷ w) l = absurd (omega arith)

pub three-words : (w : Words) → length w ≡ 3 → (x : ℕ) × (y : ℕ) × (z : ℕ) × (w ≡ x ∷ y ∷ z ∷ [])
three-words [] l = absurd (omega arith)
three-words (x ∷ []) l = absurd (omega arith)
three-words (x ∷ y ∷ []) l = absurd (omega arith)
three-words (x ∷ y ∷ z ∷ []) l = (x, y, z, refl)
three-words (x ∷ y ∷ z ∷ t ∷ w) l = absurd (omega arith)

-- What fails on top of a heap with some objects.
pub rebase :
    {A : Type 0} (malloc : Malloc) (ys : Objects) (g h : Heap) (m : Command A) (k : Heap)
    (Q : A → Heap → Type 0)
    → h ≡ overlay ys g
    → Gives malloc h m k Q
    → Gives malloc g m k Q
rebase malloc ys g h m k Q e (inl (x, n, xs, full)) =
    inl (x, n, xs ++ ys, ap (malloc n) (overlay-append xs ys g ∙ ap (overlay xs) (sym e)) ∙ full)
rebase malloc ys g h m k Q e (inr r) = inr r

module _ (malloc : Malloc) (is : IsMalloc malloc) (g : Heap) where
  pub xmalloc-Gives :
      (n : ℕ) (xs : Objects) (h : Heap)
      → h ≡ overlay xs g
      → Gives malloc g
          (xmalloc malloc n)
          h
          (λ p h'. (w : Words) × (h' ≡ overlay ((p, w) ∷ []) h) × (length w ≡ n) × Fresh p h)
  unfolding xmalloc
  xmalloc-Gives n xs h at = elim (Option-cases (malloc n h)) [
    | inl e ↦ inl (rw (xmalloc, e) refl, n, xs, ap (malloc n) (sym at) ∙ e)
    | inr ((p, w), e) ↦
        let (ne, free, l) = is n h p w e in
        inr (p, overlay ((p, w) ∷ []) h, rw (xmalloc, e) refl, (w, refl, l, (ne, free)))
  ]

  pub make_buffer-Gives :
      (xs : Objects) (h : Heap)
      → h ≡ overlay xs g
      → Gives malloc g
          (make_buffer malloc)
          h
          (λ b h'. (h' ≡ overlay ((b, null ∷ 0 ∷ 0 ∷ []) ∷ []) h) × Fresh b h)
  unfolding make_buffer
  make_buffer-Gives xs h at =
      bind malloc g (xmalloc malloc 3) _ h _ _ (xmalloc-Gives 3 xs h at)
        λ b h' (w, e, l, (ne, free)).
          let (x, y, z, s) = three-words w l in
          rw
            (
              e,
              s,
              set_word-middle [] b 0 null (x ∷ y ∷ z ∷ []) [] h (ne, free, tt),
              set_word-middle [] b 1 0 (null ∷ y ∷ z ∷ []) [] h (ne, free, tt),
              set_word-middle [] b 2 0 (null ∷ 0 ∷ z ∷ []) [] h (ne, free, tt),
            )
            (inr (b, overlay ((b, null ∷ 0 ∷ 0 ∷ []) ∷ []) h, refl, (refl, (ne, free))))
