-- ===== src/Bencode.antt =====
-- Bencoding as the protocol defines it, apart from the code: values, how they are written, and a
-- reader. The children model bncode.c and prove it against this.
pub mod Roundtrip
pub mod Encode
pub mod Entries
use ttracker.Base.{
  ℕ, zero, suc, ◌+◌, ◌-◌, ◌*◌, ◌≤◌, ◌≡◌, refl, Bool, true, false, Option, none, some, List, [], ◌∷◌,
  ◌++◌, Bytes, codes, leb, ltb, ◌==◌, if◌then◌else◌, ◌>>=◌, length, take, drop,
}
use ttracker.Base.Int.{ℤ, pos, negsuc}
use ttracker.Base.Decimal.{digits, print_int, is_digit}

-- `unknown` is an element whose tag is none of the four.
mutual
  pub data Value : Type 0 where
    int : ℤ → Value
    bytestring : Bytes → Value
    list : Values → Value
    dict : Pairs → Value
    unknown : Value

  pub data Values : Type 0 where
    nil : Values
    cons : Value → Values → Values

  pub data Pairs : Type 0 where
    end : Pairs
    pair : Bytes → Value → Pairs → Pairs

abbrev pub print_bytes : Bytes → Bytes
print_bytes s = digits (length s) ++ (b':' ∷ s)

unfoldable mutual
  pub print : Value → Bytes
  print (int n) = b'i' ∷ (print_int n ++ b'e' ∷ [])
  print (bytestring s) = print_bytes s
  print (list vs) = b'l' ∷ (print_values vs ++ b'e' ∷ [])
  print (dict ps) = b'd' ∷ (print_pairs ps ++ b'e' ∷ [])
  print unknown = []

  pub print_values : Values → Bytes
  print_values nil = []
  print_values (cons v vs) = print v ++ print_values vs

  pub print_pairs : Pairs → Bytes
  print_pairs end = []
  print_pairs (pair k v ps) = print_bytes k ++ (print v ++ print_pairs ps)

-- The run of digits in front, read behind `n`, and what follows it.
scan_digits : ℕ → Bytes → ℕ × Bytes
scan_digits n [] = (n, [])
scan_digits n (c ∷ s) =
    let rest = scan_digits (n * 10 + (c - b'0')) s in if is_digit c then rest else (n, c ∷ s)

-- `expect c`: the rest behind the byte `c`.
expect : ℕ → Bytes → Option Bytes
expect c [] = none
expect c (d ∷ s) = if d == c then some s else none

negative : ℕ → ℤ
negative zero = pos zero
negative (suc n) = negsuc n

read_int : Bytes → Option (Value × Bytes)
unfolding negative
read_int [] = none
read_int (c ∷ s) =
    if c == b'-'
    then (let (n, r) = scan_digits 0 s in expect b'e' r >>= λ t. some (int (negative n), t))
    else (let (n, r) = scan_digits 0 (c ∷ s) in expect b'e' r >>= λ t. some (int (pos n), t))

read_bytes : Bytes → Option (Bytes × Bytes)
read_bytes s =
    let (n, r) = scan_digits 0 s in
    expect b':' r >>= λ t. if leb n (length t) then some (take n t, drop n t) else none

abbrev starts_with : ℕ → Bytes → Bool
starts_with c [] = false
starts_with c (d ∷ s) = d == c

-- The reader, with fuel for each value and each place in a list or dictionary.
mutual
  pub read : ℕ → Bytes → Option (Value × Bytes)
  read zero s = none
  read (suc f) [] = none
  read (suc f) (c ∷ s) =
      let as_list = read_values f s >>= λ r. some (list r.0, r.1) in
      let as_dict = read_pairs f s >>= λ r. some (dict r.0, r.1) in
      if c == b'i'
      then read_int s
      else if c == b'l'
      then as_list
      else if c == b'd'
      then as_dict
      else if is_digit c
      then (read_bytes (c ∷ s) >>= λ r. some (bytestring r.0, r.1))
      else none

  pub read_values : ℕ → Bytes → Option (Values × Bytes)
  read_values zero s = none
  read_values (suc f) s =
      let more = read f s >>= λ r. read_values f r.1 >>= λ q. some (cons r.0 q.0, q.1) in
      if starts_with b'e' s then some (nil, drop 1 s) else more

  pub read_pairs : ℕ → Bytes → Option (Pairs × Bytes)
  read_pairs zero s = none
  read_pairs (suc f) s =
      let more = read_bytes s >>= λ k.
      read f k.1 >>= λ r. read_pairs f r.1 >>= λ q. some (pair k.0 r.0 q.0, q.1) in
      if starts_with b'e' s then some (end, drop 1 s) else more

-- The fuel that reading a value back takes.
mutual
  pub size : Value → ℕ
  size (int n) = 1
  size (bytestring s) = 1
  size (list vs) = 1 + size_values vs
  size (dict ps) = 1 + size_pairs ps
  size unknown = 1

  pub size_values : Values → ℕ
  size_values nil = 1
  size_values (cons v vs) = 1 + size v + size_values vs

  pub size_pairs : Pairs → ℕ
  size_pairs end = 1
  size_pairs (pair k v ps) = 1 + size v + size_pairs ps

-- A value with no element of unknown tag.
unfoldable mutual
  pub IsKnown : Value → Type 0
  IsKnown (int n) = Unit
  IsKnown (bytestring s) = Unit
  IsKnown (list vs) = AreKnown vs
  IsKnown (dict ps) = HasKnown ps
  IsKnown unknown = ⊥

  pub AreKnown : Values → Type 0
  AreKnown nil = Unit
  AreKnown (cons v vs) = IsKnown v × AreKnown vs

  pub HasKnown : Pairs → Type 0
  HasKnown end = Unit
  HasKnown (pair k v ps) = IsKnown v × HasKnown ps

failure : Value
failure = dict (pair (codes "failure reason") (bytestring (codes "query error")) end)

print-failure : print failure ≡ codes "d14:failure reason11:query errore"
unfolding failure print digits
print-failure = refl

read-failure : read 9 (codes "d14:failure reason11:query errorexy") ≡ some (failure, codes "xy")
unfolding failure read read_bytes scan_digits expect
read-failure = refl
