-- ===== src/Heap/Picked.antt =====
-- The order in which fresh objects are listed is no matter.
use ttracker.Base.{ℕ, zero, suc, ◌≡◌, ◌≢◌, some, refl, sym, ap, ◌∙◌, List, [], ◌∷◌}
use ttracker.Heap.{Words, Heap, put}
use ttracker.Heap.Overlay.{Objects, overlay, AreFresh, put-other, put_comm, ne_of_put}

abbrev pub behind_first : ℕ × Words → Objects → Objects
behind_first x [] = x ∷ []
behind_first x (y ∷ ys) = y ∷ x ∷ ys

-- Object `i` to the front
abbrev pub pick : ℕ → Objects → Objects
pick zero xs = xs
pick (suc i) [] = []
pick (suc i) (x ∷ xs) = behind_first x (pick i xs)

-- One after the other
abbrev pub picks : List ℕ → Objects → Objects
picks [] xs = xs
picks (i ∷ is) xs = picks is (pick i xs)

module _ (g : Heap) where
  -- Both lists stand for the same heap.
  abbrev pub Agree : Objects → Objects → Type 0
  Agree xs ys = (overlay ys g ≡ overlay xs g) × AreFresh ys g

  behind_first-Agree :
      (x : ℕ × Words) (zs : Objects) → AreFresh (x ∷ zs) g → Agree (x ∷ zs) (behind_first x zs)
  behind_first-Agree (p, o) [] f = (refl, f)
  behind_first-Agree (p, o) ((q, r) ∷ ys) (pn, e, (qn, u, f)) =
      let h = overlay ys g in
      let apart : q ≢ p = ne_of_put h q p r e in
      (
        sym (put_comm h q p (some r) (some o) apart),
        (
          qn,
          put-other h p q (some o) (λ d. apart (sym d)) ∙ u,
          (pn, sym (put-other h q p (some r) apart) ∙ e, f),
        ),
      )

  pick-Agree : (i : ℕ) (xs : Objects) → AreFresh xs g → Agree xs (pick i xs)
  pick-Agree zero xs f = (refl, f)
  pick-Agree (suc i) [] f = (refl, f)
  pick-Agree (suc i) ((p, o) ∷ xs) (n, e, f) =
      let (same, fresh) = pick-Agree i xs f in
      let (swapped, all) =
        behind_first-Agree (p, o) (pick i xs) (n, ap (λ h. h p) same ∙ e, fresh) in
      (swapped ∙ ap (λ h. put h p (some o)) same, all)

  pub picks-Agree : (is : List ℕ) (xs : Objects) → AreFresh xs g → Agree xs (picks is xs)
  picks-Agree [] xs f = (refl, f)
  picks-Agree (i ∷ is) xs f =
      let (same, fresh) = pick-Agree i xs f in
      let (rest, all) = picks-Agree is (pick i xs) fresh in (rest ∙ same, all)
