-- ===== src/Bencode/Roundtrip.antt =====
-- What `print` writes, `read` reads back.
use ttracker.Base.{
  ℕ, zero, suc, ◌+◌, ◌-◌, ◌*◌, ◌≤◌, ◌≡◌, ◌≢◌, refl, ap, subst, ◌∙◌, false, some, [], ◌∷◌, ◌++◌,
  Bytes, All, arith, length, take, drop, append_assoc, append-nil, length-append, drop-append_past,
  take-append, take_all,
}
use ttracker.Base.Int.{ℤ, pos, negsuc}
use ttracker.Base.Decimal.{
  digits, print_int, is_digit, IsDigit, value, value-digits, digits-IsDigit, digits-cons,
}
use ttracker.Bencode.{
  Value, Values, Pairs, int, bytestring, list, dict, unknown, nil, cons, end, pair, print_bytes,
  print, print_values, print_pairs, scan_digits, expect, read_int, read_bytes, read, read_values,
  read_pairs, starts_with, size, size_values, size_pairs, IsKnown, AreKnown, HasKnown,
}

scan_digits-append :
    (s : Bytes) (n c : ℕ) (r : Bytes)
    → All IsDigit s
    → is_digit c ≡ false
    → scan_digits n (s ++ c ∷ r) ≡ (value n s, c ∷ r)
unfolding scan_digits value
scan_digits-append [] n c r a h = rw h
scan_digits-append (d ∷ s) n c r a h =
    ground (arith, scan_digits-append s (n * 10 + (d - b'0')) c r a.1 h)

scan_digits-digits :
    (n c : ℕ) (r : Bytes) → is_digit c ≡ false → scan_digits 0 (digits n ++ c ∷ r) ≡ (n, c ∷ r)
scan_digits-digits n c r h =
    scan_digits-append (digits n) 0 c r (digits-IsDigit n) h ∙ ap (λ k. (k, c ∷ r)) (value-digits n)

cut-append : (s r : Bytes) → (take (length s) (s ++ r) ≡ s) × (drop (length s) (s ++ r) ≡ r)
cut-append s r = (
  take-append s r (length s) (omega arith) ∙ take_all s (length s) (omega arith),
  drop-append_past s r,
)

read_bytes-print : (s rest : Bytes) → read_bytes (print_bytes s ++ rest) ≡ some (s, rest)
unfolding read_bytes expect
read_bytes-print s rest =
    rw
      (
        append_assoc (digits (length s)) (b':' ∷ s) rest,
        scan_digits-digits (length s) b':' (s ++ rest) refl,
      )
      (ground (arith, cut-append s rest, length-append s rest))

read_int-print : (n : ℤ) (rest : Bytes) → read_int (print_int n ++ b'e' ∷ rest) ≡ some (int n, rest)
unfolding read_int print_int expect
read_int-print (pos n) rest = ground (arith, digits-cons n, scan_digits-digits n b'e' rest refl)
read_int-print (negsuc n) rest = ground (arith, scan_digits-digits (suc n) b'e' rest refl)

-- What begins as text other than `e`.
abbrev Opens : Bytes → Type 0
Opens t = (c : ℕ) × (s : Bytes) × (t ≡ c ∷ s) × (c ≢ b'e')

print_bytes-Opens : (s : Bytes) → Opens (print_bytes s)
print_bytes-Opens s =
    let (d, r, e, h) = digits-cons (length s) in (d, r ++ (b':' ∷ s), rw e, omega arith)

print-Opens : (v : Value) → IsKnown v → Opens (print v)
unfolding print IsKnown
print-Opens (int n) k = (b'i', print_int n ++ b'e' ∷ [], refl, omega arith)
print-Opens (bytestring s) k = print_bytes-Opens s
print-Opens (list vs) k = (b'l', print_values vs ++ b'e' ∷ [], refl, omega arith)
print-Opens (dict ps) k = (b'd', print_pairs ps ++ b'e' ∷ [], refl, omega arith)
print-Opens unknown k = absurd k

not-end : (t rest : Bytes) → Opens t → starts_with b'e' (t ++ rest) ≡ false
not-end t rest (c, s, e, h) = rw e (ground arith)

read-bytestring :
    (f : ℕ) (s rest : Bytes) → read (suc f) (print_bytes s ++ rest) ≡ some (bytestring s, rest)
unfolding read
read-bytestring f s rest = ground (arith, digits-cons (length s), read_bytes-print s rest)

read-int :
    (f : ℕ) (n : ℤ) (rest : Bytes) → read (suc f) (print (int n) ++ rest) ≡ some (int n, rest)
unfolding read print
read-int f n rest = rw (append_assoc (print_int n) (b'e' ∷ []) rest) (read_int-print n rest)

read-list :
    (f : ℕ) (vs : Values) (rest : Bytes)
    → read_values f (print_values vs ++ b'e' ∷ rest) ≡ some (vs, rest)
    → read (suc f) (print (list vs) ++ rest) ≡ some (list vs, rest)
unfolding read print
read-list f vs rest h = rw (append_assoc (print_values vs) (b'e' ∷ []) rest, h)

read-dict :
    (f : ℕ) (ps : Pairs) (rest : Bytes)
    → read_pairs f (print_pairs ps ++ b'e' ∷ rest) ≡ some (ps, rest)
    → read (suc f) (print (dict ps) ++ rest) ≡ some (dict ps, rest)
unfolding read print
read-dict f ps rest h = rw (append_assoc (print_pairs ps) (b'e' ∷ []) rest, h)

read_values-cons :
    (f : ℕ) (v : Value) (vs : Values) (r rest : Bytes)
    → IsKnown v
    → read f (print v ++ r) ≡ some (v, r)
    → read_values f r ≡ some (vs, rest)
    → read_values (suc f) (print v ++ r) ≡ some (cons v vs, rest)
unfolding read_values
read_values-cons f v vs r rest k h g = rw (not-end (print v) r (print-Opens v k), h, g)

read_pairs-pair :
    (f : ℕ) (key : Bytes) (v : Value) (ps : Pairs) (r rest : Bytes)
    → read f (print v ++ r) ≡ some (v, r)
    → read_pairs f r ≡ some (ps, rest)
    → read_pairs (suc f) (print_bytes key ++ (print v ++ r)) ≡ some (pair key v ps, rest)
unfolding read_pairs
read_pairs-pair f key v ps r rest h g = rw (
  not-end (print_bytes key) (print v ++ r) (print_bytes-Opens key),
  read_bytes-print key (print v ++ r),
  h,
  g,
)

mutual
  unfolding print read size IsKnown

  read-print :
      (f : ℕ) (v : Value) (rest : Bytes)
      → IsKnown v
      → size v ≤ f
      → read f (print v ++ rest) ≡ some (v, rest)
  read-print zero (int n) rest k h = absurd (omega arith)
  read-print (suc f) (int n) rest k h = read-int f n rest
  read-print zero (bytestring s) rest k h = absurd (omega arith)
  read-print (suc f) (bytestring s) rest k h = read-bytestring f s rest
  read-print zero (list vs) rest k h = absurd (omega arith)
  read-print (suc f) (list vs) rest k h =
      read-list f vs rest (read_values-print f vs rest k (omega arith))
  read-print zero (dict ps) rest k h = absurd (omega arith)
  read-print (suc f) (dict ps) rest k h =
      read-dict f ps rest (read_pairs-print f ps rest k (omega arith))
  read-print f unknown rest k h = absurd k

  read_values-print :
      (f : ℕ) (vs : Values) (rest : Bytes)
      → AreKnown vs
      → size_values vs ≤ f
      → read_values f (print_values vs ++ b'e' ∷ rest) ≡ some (vs, rest)
  read_values-print zero nil rest k h = absurd (omega arith)
  read_values-print (suc f) nil rest k h = refl
  read_values-print zero (cons v vs) rest k h = absurd (omega arith)
  read_values-print (suc f) (cons v vs) rest k h =
      rw (append_assoc (print v) (print_values vs) (b'e' ∷ rest)) (
        read_values-cons f v vs (print_values vs ++ b'e' ∷ rest) rest k.0
          (read-print f v (print_values vs ++ b'e' ∷ rest) k.0 (omega arith))
          (read_values-print f vs rest k.1 (omega arith)))

  read_pairs-print :
      (f : ℕ) (ps : Pairs) (rest : Bytes)
      → HasKnown ps
      → size_pairs ps ≤ f
      → read_pairs f (print_pairs ps ++ b'e' ∷ rest) ≡ some (ps, rest)
  read_pairs-print zero end rest k h = absurd (omega arith)
  read_pairs-print (suc f) end rest k h = refl
  read_pairs-print zero (pair key v ps) rest k h = absurd (omega arith)
  read_pairs-print (suc f) (pair key v ps) rest k h =
      rw
        (
          append_assoc (print_bytes key) (print v ++ print_pairs ps) (b'e' ∷ rest),
          append_assoc (print v) (print_pairs ps) (b'e' ∷ rest),
        )
        (read_pairs-pair f key v ps (print_pairs ps ++ b'e' ∷ rest) rest
          (read-print f v (print_pairs ps ++ b'e' ∷ rest) k.0 (omega arith))
          (read_pairs-print f ps rest k.1 (omega arith)))

-- A text that is the bencoding of `v` and nothing more.
abbrev pub Encodes : Bytes → Value → Type 0
Encodes t v = read (size v) t ≡ some (v, [])

pub print-Encodes : (v : Value) → IsKnown v → Encodes (print v) v
print-Encodes v k =
    subst (λ t. read (size v) t ≡ some (v, [])) (append-nil (print v))
      (read-print (size v) v [] k (omega arith))
