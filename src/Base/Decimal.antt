-- ===== src/Base/Decimal.antt =====
-- `%d`, `%ld` and `%zu` of printf, and the value that a run of digits spells.
use Prim.Native.Nat.{ℕ, zero, suc, ◌+◌, ◌-◌, ◌*◌, ◌/◌, ◌%◌, ◌≤◌, ◌<◌}
use mathlib.Core.Path.{◌≡◌, refl, subst}
use mathlib.Core.Logic.{inl, inr, ◌≢◌}
use mathlib.Core.Bool.{Bool, ◌&&◌}
use mathlib.Core.List.{[], ◌∷◌, ◌++◌}
use native.Mathlib.Omega.{arith}
use ttracker.Base.Tests.{ltb, leb, if◌then◌else◌, Bool-cases}
use ttracker.Base.Lists.{Bytes, All, All-append, codes, length, length-append}
use ttracker.Base.Int.{ℤ, pos, negsuc}

-- The digits of `n`, with fuel for as many divisions as are needed.
digits_fuel : ℕ → ℕ → Bytes
digits_fuel zero n = []
digits_fuel (suc f) n =
    let rest = digits_fuel f (n / 10) ++ (b'0' + n % 10) ∷ [] in
    if ltb n 10 then (b'0' + n) ∷ [] else rest

unfoldable pub digits : ℕ → Bytes
unfolding digits_fuel
digits n = digits_fuel (suc n) n

-- `%d`.
unfoldable pub print_int : ℤ → Bytes
unfolding digits
print_int (pos n) = digits n
print_int (negsuc n) = b'-' ∷ digits (suc n)

abbrev pub is_digit : ℕ → Bool
is_digit c = leb b'0' c && leb c b'9'

abbrev pub IsDigit : ℕ → Type 0
IsDigit c = (b'0' ≤ c) × (c ≤ b'9')

-- The number that digits spell behind `n`.
unfoldable pub value : ℕ → Bytes → ℕ
value n [] = n
value n (c ∷ s) = value (n * 10 + (c - b'0')) s

value-append : (s : Bytes) (n c : ℕ) → value n (s ++ c ∷ []) ≡ value n s * 10 + (c - b'0')
unfolding value
value-append [] n c = refl
value-append (d ∷ s) n c = value-append s (n * 10 + (d - b'0')) c

value-digits_fuel : (f n : ℕ) → n < f → value 0 (digits_fuel f n) ≡ n
unfolding digits_fuel value
value-digits_fuel zero n h = absurd (omega arith)
value-digits_fuel (suc f) n h =
    ground
      (arith, value-append (digits_fuel f (n / 10)) 0 (b'0' + n % 10), value-digits_fuel f (n / 10))

pub value-digits : (n : ℕ) → value 0 (digits n) ≡ n
unfolding digits
value-digits n = value-digits_fuel (suc n) n (omega arith)

digits_fuel-IsDigit : (f n : ℕ) → All IsDigit (digits_fuel f n)
unfolding digits_fuel
digits_fuel-IsDigit zero n = tt
digits_fuel-IsDigit (suc f) n = ground (
  arith,
  All-append IsDigit (digits_fuel f (n / 10)) ((b'0' + n % 10) ∷ [])
      (digits_fuel-IsDigit f (n / 10)) (omega arith),
)

pub digits-IsDigit : (n : ℕ) → All IsDigit (digits n)
unfolding digits
digits-IsDigit n = digits_fuel-IsDigit (suc n) n

print_int_minus : print_int (negsuc 41) ≡ codes "-42"
unfolding print_int
print_int_minus = refl

digits_large : digits 18446744073709551615 ≡ codes "18446744073709551615"
unfolding digits
digits_large = refl

digits_fuel-ne-nil : (f n : ℕ) → n < f → (d : ℕ) × (s : Bytes) × (digits_fuel f n ≡ d ∷ s)
unfolding digits_fuel
digits_fuel-ne-nil zero n h = absurd (omega arith)
digits_fuel-ne-nil (suc f) n h = elim (Bool-cases (ltb n 10)) [
  | inl e ↦ (b'0' + n, [], rw e)
  | inr e ↦
      let (d, s, r) = digits_fuel-ne-nil f (n / 10) (ground arith) in
      (d, s ++ (b'0' + n % 10) ∷ [], rw (e, r))
]

-- A printed number begins with a digit.
pub digits-cons : (n : ℕ) → (d : ℕ) × (s : Bytes) × (digits n ≡ d ∷ s) × IsDigit d
unfolding digits
digits-cons n =
    let (d, s, e) = digits_fuel-ne-nil (suc n) n (omega arith) in
    (d, s, e, (subst (All IsDigit) e (digits_fuel-IsDigit (suc n) n)).0)

pub digits-nonzero : (s : Bytes) → All IsDigit s → All (λ c. c ≢ 0) s
digits-nonzero [] h = tt
digits-nonzero (c ∷ s) h = (omega arith, digits-nonzero s h.1)

pub print_int-nonzero : (n : ℤ) → All (λ c. c ≢ 0) (print_int n)
unfolding print_int
print_int-nonzero (pos n) = digits-nonzero (digits n) (digits-IsDigit n)
print_int-nonzero (negsuc n) =
    (omega arith, digits-nonzero (digits (suc n)) (digits-IsDigit (suc n)))

abbrev pub pow10 : ℕ → ℕ
pow10 zero = 1
pow10 (suc k) = 10 * pow10 k

length-digits_fuel-le : (f n k : ℕ) → n < pow10 (suc k) → length (digits_fuel f n) ≤ suc k
unfolding digits_fuel
length-digits_fuel-le zero n k h = omega arith
length-digits_fuel-le (suc f) n zero h = ground arith
length-digits_fuel-le (suc f) n (suc k) h = ground (
  arith,
  length-digits_fuel-le f (n / 10) k,
  length-append (digits_fuel f (n / 10)) ((b'0' + n % 10) ∷ []),
)

-- A number below 10 to the k has at most k digits.
pub length-digits-le : (n k : ℕ) → n < pow10 (suc k) → length (digits n) ≤ suc k
unfolding digits
length-digits-le n k h = length-digits_fuel-le (suc n) n k h
