-- ===== src/Memory/Printf.antt =====
-- A text that is printed piece by piece into an object, each piece over the NUL of the one before.
use ttracker.Base.{
  ℕ, zero, suc, ◌+◌, ◌-◌, ◌≤◌, ◌<◌, ◌≡◌, ◌≢◌, refl, sym, ap, ◌∙◌, none, some, List, [], ◌∷◌, ◌++◌,
  Bytes, length, take, drop, arith, ◌==◌, length-append, length-map, length-drop, length-take,
  take_all, append_assoc, append-nil,
}
use ttracker.Memory.{Cell, Object, snprintf, sprintf, cells}
use ttracker.Memory.Laws.{write_at-in_bounds, write_at-out_of_bounds, written, length-written}

-- What is left of `r` behind a text `t` printed at its start.
abbrev pub rest_after : Bytes → Object → Object
rest_after [] r = r
rest_after (c ∷ t) r = some 0 ∷ drop (length t + 2) r

drop-nil {ℓ} : (A : Type ℓ) (n : ℕ) → drop {A = A} n [] ≡ []
drop-nil A zero = refl
drop-nil A (suc n) = refl

drop-drop {ℓ} : {A : Type ℓ} (xs : List A) (n k : ℕ) → drop k (drop n xs) ≡ drop (n + k) xs
drop-drop xs zero k = let e : k ≡ zero + k = omega arith in ap (λ j. drop j xs) e
drop-drop {A} [] (suc n) k = drop-nil A k ∙ sym (drop-nil A (suc n + k))
drop-drop (x ∷ xs) (suc n) k =
    let e : suc (n + k) ≡ suc n + k = omega arith in drop-drop xs n k ∙ ap (λ j. drop j (x ∷ xs)) e

-- Two pieces leave what one piece would.
pub rest_after-append :
    (t u : Bytes) (r : Object) → rest_after u (rest_after t r) ≡ rest_after (t ++ u) r
rest_after-append [] u r = refl
rest_after-append (c ∷ t) [] r = ap (λ v. rest_after (c ∷ v) r) (sym (append-nil t))
rest_after-append (c ∷ t) (d ∷ u) r =
    let e : length t + 2 + (length u + 1) ≡ length (t ++ (d ∷ u)) + 2 =
      omega (arith, length-append t (d ∷ u)) in
    let f : length u + 2 ≡ suc (length u + 1) = omega arith in
    ap (λ j. some 0 ∷ drop j (some 0 ∷ drop (length t + 2) r)) f
    ∙ ap (λ v. some 0 ∷ v) (drop-drop r (length t + 2) (length u + 1))
    ∙ ap (λ j. some 0 ∷ drop j r) e

pub length-rest_after :
    (t : Bytes) (r : Object) → length t < length r → length (rest_after t r) ≡ length r - length t
length-rest_after [] r h = omega arith
length-rest_after (c ∷ t) r h = omega (arith, length-drop (length t + 2) r)

-- A piece written behind `s`, with its NUL.
abbrev piece : Bytes → Object
piece t = cells t ++ some 0 ∷ []

length-piece : (t : Bytes) → length (piece t) ≡ length t + 1
length-piece t =
    omega (arith, length-append (cells t) (some 0 ∷ []), length-map {A = ℕ} {B = Cell} some t)

pub length-cells : (t : Bytes) → length (cells t) ≡ length t
length-cells t = length-map {A = ℕ} {B = Cell} some t

pub cells-append : (s t : Bytes) → cells (s ++ t) ≡ cells s ++ cells t
cells-append [] t = refl
cells-append (c ∷ s) t = ap (λ m. some c ∷ m) (cells-append s t)

pub drop-cells : (s : Bytes) (m : Object) → drop (length s) (cells s ++ m) ≡ m
drop-cells [] m = refl
drop-cells (c ∷ s) m = drop-cells s m

written_behind :
    (s t : Bytes) (r : Object)
    → t ≢ []
    → written (cells s ++ r) (length s) (piece t) ≡ cells (s ++ t) ++ rest_after t r
written_behind [] [] r h = absurd (h refl)
written_behind [] (c ∷ t) r h =
    let e : 0 + length (piece (c ∷ t)) ≡ length t + 2 = omega (arith, length-piece (c ∷ t)) in
    ap (λ j. piece (c ∷ t) ++ drop j r) e
    ∙ append_assoc (cells (c ∷ t)) (some 0 ∷ []) (drop (length t + 2) r)
written_behind (x ∷ s) t r h =
    let n = length (piece t) in
    let e : suc (length s) + n ≡ suc (length s + n) = omega arith in
    ap (λ j. some x ∷ (take (length s) (cells s ++ r) ++ (piece t ++ drop j (cells (x ∷ s) ++ r))))
      e
    ∙ ap (λ m. some x ∷ m) (written_behind s t r h)

-- Printing a piece behind a text, with room for both and the NUL.
pub snprintf_behind :
    (s t : Bytes) (r : Object) (n : ℕ)
    → t ≢ []
    → length t < n
    → length t < length r
    → snprintf (cells s ++ r) (length s) n t ≡ some (cells (s ++ t) ++ rest_after t r, length t)
unfolding snprintf
snprintf_behind s t r n h k room =
    rw
      (
        n-pos,
        take_all t (n - 1) (omega arith),
        write_at-in_bounds (cells s ++ r) (length s) (piece t) fits,
      )
      (ap (λ m. some (m, length t)) (written_behind s t r h))
  where
    n-pos : (n == 0) ≡ (1 == 0)
    n-pos = ground arith

    fits : length s + length (piece t) ≤ length (cells s ++ r)
    fits = omega (arith, length-append (cells s) r, length-cells s, length-piece t)

-- The same for sprintf, which asks for no size.
pub sprintf_behind :
    (s t : Bytes) (r : Object)
    → t ≢ []
    → length t < length r
    → sprintf (cells s ++ r) (length s) t ≡ some (cells (s ++ t) ++ rest_after t r, length t)
unfolding sprintf
sprintf_behind s t r h room =
    rw (write_at-in_bounds (cells s ++ r) (length s) (piece t) fits)
      (ap (λ m. some (m, length t)) (written_behind s t r h))
  where
    fits : length s + length (piece t) ≤ length (cells s ++ r)
    fits = omega (arith, length-append (cells s) r, length-cells s, length-piece t)

-- Where the text and its NUL go past the end of the object, printing is undefined.
pub snprintf_past :
    (m : Object) (off n : ℕ) (t : Bytes)
    → length t < n
    → length m ≤ off + length t
    → snprintf m off n t ≡ none
unfolding snprintf
snprintf_past m off n t k h = rw (
  n-pos,
  take_all t (n - 1) (omega arith),
  write_at-out_of_bounds m off (piece t) (omega (arith, length-piece t)),
)
  where
    n-pos : (n == 0) ≡ (1 == 0)
    n-pos = ground arith

-- With `n` chars to write to, all inside the object, printing is defined, however long the text,
-- and its result is the length of all of the text.
pub snprintf_inside :
    (m : Object) (off n : ℕ) (t : Bytes)
    → 0 < n
    → off + n ≤ length m
    → (m' : Object) × (snprintf m off n t ≡ some (m', length t)) × (length m' ≡ length m)
unfolding snprintf
snprintf_inside m off n t h k = (
  written m off (piece (take (n - 1) t)),
  rw (n-pos, write_at-in_bounds m off (piece (take (n - 1) t)) fits),
  length-written m off (piece (take (n - 1) t)) fits,
)
  where
    n-pos : (n == 0) ≡ (1 == 0)
    n-pos = ground arith

    fits : off + length (piece (take (n - 1) t)) ≤ length m
    fits = omega (arith, length-piece (take (n - 1) t), length-take (n - 1) t)

pub rest_after_nonempty :
    (t : Bytes) (r : Object) → t ≢ [] → rest_after t r ≡ some 0 ∷ drop (length t + 1) r
rest_after_nonempty [] r h = absurd (h refl)
rest_after_nonempty (c ∷ t) r h =
    let e : length t + 2 ≡ length (c ∷ t) + 1 = omega arith in ap (λ k. some 0 ∷ drop k r) e
