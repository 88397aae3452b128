-- ===== src/Memory/Laws.antt =====
-- What the library calls on memory objects leave behind.
use ttracker.Base.{
  ℕ, zero, suc, ◌+◌, ◌-◌, ◌≤◌, ◌≡◌, ◌≢◌, refl, ap, ◌∙◌, none, some, List, [], ◌∷◌, ◌++◌, Bytes,
  length, take, drop, replicate, arith, All, le→leb, length-append, length-take, length-drop,
  length-replicate, take-append, take_all, take-append_past,
}
use ttracker.Memory.{Cell, Object, write_at, read_at, realloc, c_string, cells}

-- The object after a write in bounds.
abbrev pub written : Object → ℕ → Object → Object
written m off src = take off m ++ (src ++ drop (off + length src) m)

pub write_at-in_bounds :
    (m : Object) (off : ℕ) (src : Object)
    → off + length src ≤ length m
    → write_at m off src ≡ some (written m off src)
unfolding write_at
write_at-in_bounds m off src h = rw (le→leb _ _ h)

pub write_at-out_of_bounds :
    (m : Object) (off : ℕ) (src : Object)
    → length m + 1 ≤ off + length src
    → write_at m off src ≡ none
unfolding write_at
write_at-out_of_bounds m off src h = ground arith

pub length-written :
    (m : Object) (off : ℕ) (src : Object)
    → off + length src ≤ length m
    → length (written m off src) ≡ length m
length-written m off src h = omega (
  arith,
  length-append (take off m) (src ++ drop (off + length src) m),
  length-append src (drop (off + length src) m),
  length-take off m,
  length-drop (off + length src) m,
)

-- The cells up to the end of the write are the old ones before it and then the new ones.
pub take-written :
    (m : Object) (off : ℕ) (src : Object)
    → off + length src ≤ length m
    → take (off + length src) (written m off src) ≡ take off m ++ src
take-written m off src h =
    ap (λ k. take k (written m off src)) from_start
    ∙ take-append_past (take off m) (src ++ drop (off + length src) m) (length src)
    ∙ ap (λ t. take off m ++ t)
        (take-append src (drop (off + length src) m) (length src) (omega arith)
          ∙ take_all src (length src) (omega arith))
  where
    from_start : off + length src ≡ length (take off m) + length src
    from_start = omega (arith, length-take off m)

pub take-take {ℓ} : {A : Type ℓ} (xs : List A) (n k : ℕ) → n ≤ k → take n (take k xs) ≡ take n xs
take-take xs zero k h = refl
take-take [] (suc n) zero h = elim h [ ]
take-take [] (suc n) (suc k) h = refl
take-take (x ∷ xs) (suc n) zero h = elim h [ ]
take-take (x ∷ xs) (suc n) (suc k) h = ap (λ t. x ∷ t) (take-take xs n k (omega arith))

-- A write leaves the cells before it alone.
pub take-written_before :
    (m : Object) (off : ℕ) (src : Object)
    → off ≤ length m
    → take off (written m off src) ≡ take off m
take-written_before m off src h =
    take-append (take off m) (src ++ drop (off + length src) m) off
      (omega (arith, length-take off m))
    ∙ take-take m off off (omega arith)

pub length-realloc : (m : Object) (n : ℕ) → length (realloc m n) ≡ n
unfolding realloc
length-realloc m n = omega (
  arith,
  length-append (take n m) (replicate (n - length m) none),
  length-take n m,
  length-replicate {0} {A = Cell} (n - length m) none,
)

-- Growing an object keeps its cells.
pub take-realloc :
    (m : Object) (n k : ℕ) → k ≤ length m → length m ≤ n → take k (realloc m n) ≡ take k m
unfolding realloc
take-realloc m n k h g =
    ap (λ t. take k (t ++ replicate (n - length m) none)) (take_all m n g)
    ∙ take-append m (replicate (n - length m) none) k h

pub read_at_start : (m : Object) (n : ℕ) → n ≤ length m → read_at m 0 n ≡ some (take n m)
unfolding read_at
read_at_start m n h = ground (arith)

abbrev pub IsText : Bytes → Type 0
IsText = All (λ c. c ≢ 0)

-- A string followed by its NUL is read back as written.
pub c_string-cells :
    (s : Bytes) (rest : Object) → IsText s → c_string (cells s ++ some 0 ∷ rest) ≡ some s
unfolding c_string
c_string-cells [] rest t = refl
c_string-cells (c ∷ s) rest t = ground (arith, c_string-cells s rest t.1)
