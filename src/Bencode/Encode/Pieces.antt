-- ===== src/Bencode/Encode/Pieces.antt =====
-- Single pieces of an encoding, and how they follow one another.
use ttracker.Base.{
  ℕ, ◌+◌, ◌-◌, ◌≤◌, ◌<◌, ◌≡◌, ◌≢◌, refl, sym, ap, ap₂, ◌∙◌, false, Option, some, [], ◌∷◌, ◌++◌,
  Bytes, arith, length, drop, length-append, append_assoc, append-nil, ◌>>=◌, All-append,
}
use ttracker.Base.Int.{ℤ, pos, leb_ℤ, pos-+ℤ-pos, pos--ℤ-pos}
use ttracker.Base.Decimal.{print_int, digits, print_int-nonzero}
use ttracker.Memory.{Object, cells}
use ttracker.Memory.Laws.{IsText, c_string-cells}
use ttracker.Memory.Printf.{
  snprintf_behind, rest_after, rest_after-append, length-rest_after, cells-append, drop-cells,
}
use ttracker.Bencode.{int, print, print_bytes}
use ttracker.Bencode.Encode.{strlen_at, encode_bytes, encode_int, open_with, close, add_to}

-- strlen of a piece that was just printed.
strlen_at-printed :
    (s t : Bytes) (r : Object) (k : ℕ)
    → t ≢ []
    → IsText t
    → strlen_at (length s) (cells (s ++ t) ++ rest_after t r, k)
      ≡ some (cells (s ++ t) ++ rest_after t r, pos (length t))
strlen_at-printed s [] r k h i = absurd (h refl)
strlen_at-printed s (c ∷ t) r k h i = rw (from_piece, c_string-cells (c ∷ t) _ i)
  where
    from_piece :
        drop (length s) (cells (s ++ c ∷ t) ++ rest_after (c ∷ t) r)
        ≡ cells (c ∷ t) ++ rest_after (c ∷ t) r
    from_piece =
        ap (λ m. drop (length s) (m ++ rest_after (c ∷ t) r)) (cells-append s (c ∷ t))
        ∙ ap (λ m. drop (length s) m)
            (append_assoc (cells s) (cells (c ∷ t)) (rest_after (c ∷ t) r))
        ∙ drop-cells s (cells (c ∷ t) ++ rest_after (c ∷ t) r)

-- `t` is printed behind `s`, and its length is the result.
abbrev pub Puts : Bytes → Bytes → Object → Option (Object × ℤ) → Type 0
Puts s t r q = q ≡ some (cells (s ++ t) ++ rest_after t r, pos (length t))

-- The loops and brackets: `t` is printed behind `p` and `s`, of which `s` is counted.
abbrev pub state : Bytes → Bytes → Object → Object × ℤ
state p s r = (cells (p ++ s) ++ r, pos (length s))

abbrev pub Adds : Bytes → Bytes → Bytes → Object → Option (Object × ℤ) → Type 0
Adds p s t r q = q ≡ some (state p (s ++ t) (rest_after t r))

pub encode_bytes-Puts :
    (s t : Bytes) (r : Object) (n : ℕ)
    → t ≢ []
    → IsText t
    → length (print_bytes t) < n
    → length (print_bytes t) < length r
    → Puts s (print_bytes t) r (encode_bytes t (pos (length t)) (cells s ++ r) (length s) (pos n))
unfolding encode_bytes print_int
encode_bytes-Puts s [] r n h i k room = absurd (h refl)
encode_bytes-Puts s (c ∷ t) r n h i k room =
    rw (positive, snprintf_behind s (print_bytes (c ∷ t)) r n nonempty k room)
      (strlen_at-printed s (print_bytes (c ∷ t)) r (length (print_bytes (c ∷ t))) nonempty text)
  where
    positive : leb_ℤ (pos (length (c ∷ t))) (pos 0) ≡ false
    positive = ground arith

    nonempty : print_bytes (c ∷ t) ≢ []
    nonempty = λ e.
        let len = length-append (digits (length (c ∷ t))) (b':' ∷ c ∷ t) in
        absurd (omega (arith, ap (λ l. length l) e, len))

    text : IsText (print_bytes (c ∷ t))
    text =
        All-append (λ d. d ≢ 0) (digits (length (c ∷ t))) (b':' ∷ c ∷ t)
          (print_int-nonzero (pos (length (c ∷ t)))) (omega arith, i)

pub encode_int-Puts :
    (s : Bytes) (v : ℤ) (r : Object) (n : ℕ)
    → length (print (int v)) < n
    → length (print (int v)) < length r
    → Puts s (print (int v)) r (encode_int v (cells s ++ r) (length s) (pos n))
unfolding encode_int print
encode_int-Puts s v r n k room =
    rw (snprintf_behind s (print (int v)) r n (λ e. cc) k room)
      (strlen_at-printed s (print (int v)) r (length (print (int v))) (λ e. cc) text)
  where
    text : IsText (print (int v))
    text = (
      omega arith,
      All-append (λ d. d ≢ 0) (print_int v) (b'e' ∷ []) (print_int-nonzero v) (omega arith),
    )

pub add_to-Adds :
    (p s t : Bytes) (r : Object) (n : ℕ) (f : Object → ℕ → ℤ → Option (Object × ℤ))
    → length s ≤ n
    → Puts (p ++ s) t r (f (cells (p ++ s) ++ r) (length (p ++ s)) (pos (n - length s)))
    → Adds p s t r (add_to (length p) (pos n) (state p s r) f)
unfolding add_to
add_to-Adds p s t r n f h e =
    rw
      (
        sym (length-append p s),
        pos--ℤ-pos n (length s) h,
        e,
        pos-+ℤ-pos (length s) (length t),
        sym (length-append s t),
      )
      (ap (λ u. some (cells u ++ rest_after t r, pos (length (s ++ t)))) (append_assoc p s t))

open_with-Adds :
    (p : Bytes) (c : ℕ) (r : Object) (n : ℕ)
    → 1 < n
    → 1 < length r
    → open_with (c ∷ []) (cells p ++ r) (length p) (pos n)
      ≡ some (state p (c ∷ []) (rest_after (c ∷ []) r))
unfolding open_with
open_with-Adds p c r n k room = rw (snprintf_behind p (c ∷ []) r n (λ e. cc) k room)

close-Adds :
    (p s : Bytes) (r : Object) (n : ℕ)
    → length s + 1 < n
    → 1 < length r
    → Adds p s (b'e' ∷ []) r (close (length p) (pos n) (state p s r))
unfolding close
close-Adds p s r n k room =
    rw
      (
        sym (length-append p s),
        pos--ℤ-pos n (length s) (omega arith),
        snprintf_behind (p ++ s) (b'e' ∷ []) r (n - length s) (λ e. cc) (omega arith) room,
        pos-+ℤ-pos (length s) 1,
        sym (length-append s (b'e' ∷ [])),
      )
      (ap (λ u. some (cells u ++ rest_after (b'e' ∷ []) r, pos (length (s ++ b'e' ∷ []))))
        (append_assoc p s (b'e' ∷ [])))

-- One after the other.
pub seq-Adds :
    (p s t u : Bytes) (r : Object) (q : Option (Object × ℤ)) (g : Object × ℤ → Option (Object × ℤ))
    → Adds p s t r q
    → Adds p (s ++ t) u (rest_after t r) (g (state p (s ++ t) (rest_after t r)))
    → Adds p s (t ++ u) r (q >>= g)
seq-Adds p s t u r q g e f =
    rw (e, f) (ap₂ (λ v w. some (state p v w)) (append_assoc s t u) (rest_after-append t u r))

-- A body between its brackets.
pub bracket-Adds :
    (s body : Bytes) (c : ℕ) (r : Object) (n : ℕ) (g : Object × ℤ → Option (Object × ℤ))
    → length body + 2 < n
    → length body + 2 < length r
    → Adds s (c ∷ []) body (rest_after (c ∷ []) r) (g (state s (c ∷ []) (rest_after (c ∷ []) r)))
    → Puts s (c ∷ (body ++ b'e' ∷ [])) r (
        open_with (c ∷ []) (cells s ++ r) (length s) (pos n) >>= λ o.
        g o >>= λ q. close (length s) (pos n) q)
bracket-Adds s body c r n g k room h =
    seq-Adds s [] (c ∷ []) (body ++ b'e' ∷ []) r
      (open_with (c ∷ []) (cells s ++ r) (length s) (pos n))
      (λ o. g o >>= λ q. close (length s) (pos n) q)
      (open_with-Adds s c r n (omega arith) (omega arith))
      (seq-Adds s (c ∷ []) body (b'e' ∷ []) r1 (g (state s (c ∷ []) r1))
        (λ q. close (length s) (pos n) q) h
        (close-Adds s (c ∷ body) (rest_after body r1) n (omega arith)
          (omega (arith, length-rest_after body r1 (omega (arith, left)), left))))
  where
    r1 : Object
    r1 = rest_after (c ∷ []) r

    left : length r1 ≡ length r - 1
    left = length-rest_after (c ∷ []) r (omega arith)

pub nothing-Adds : (p s : Bytes) (r : Object) → Adds p s [] r (some (state p s r))
nothing-Adds p s r = ap (λ t. some (state p t r)) (sym (append-nil s))
