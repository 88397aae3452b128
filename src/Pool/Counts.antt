-- ===== src/Pool/Counts.antt =====
-- The tests of a pool's counters, and how a status changes.
use ttracker.Base.{
  ℕ, suc, ◌+◌, ◌*◌, ◌<◌, ◌≤◌, ◌≡◌, ◌≢◌, ◌⊎◌, ◌↔◌, inl, inr, sym, ap, ◌∙◌, true, false, Option, some,
  arith, ◌==◌, if◌then◌else◌,
}
use ttracker.Base.Int.{ℤ, pos, pos_part, eq_ℤ, eq_ℤ_iff, leb_ℤ, ◌-ℤ◌, pos--ℤ-pos}
use native.Mathlib.Numerals.{unary_clauses}
use ttracker.Pool.{Status, free, inuse}

pub le-cases : {k n : ℕ} → k ≤ n → (k < n) ⊎ (k ≡ n)
le-cases h = omega (arith, h)

pub some-free : (some free) ≢ (some inuse)
some-free = ground arith

-- Setting one pointer to in use adds it to those that are.
pub set_pointer :
    (x y : ℕ) {r : Option Status} (s : Option Status)
    → r ≡ (if x == y then some inuse else s)
    → (r ≡ some inuse) ↔ ((y ≡ x) ⊎ (s ≡ some inuse))
set_pointer x y s h = ground (arith, h)

-- Freeing one pointer takes it from those that are in use.
pub clear_pointer :
    (x y : ℕ) {r : Option Status} (s : Option Status)
    → r ≡ (if x == y then some free else s)
    → (r ≡ some inuse) ↔ ((y ≢ x) × (s ≡ some inuse))
clear_pointer x y s h = ground (arith, h)

-- The tests of the counters.
pub any_free :
    {m k : ℕ} (num count : ℤ)
    → num ≡ pos k
    → count ≡ pos m
    → m < k
    → leb_ℤ (num -ℤ count) (pos 0) ≡ false
any_free {m} {k} num count n u h =
    rw (n, u) (rw (pos--ℤ-pos k m (omega (arith, h))) (ground (arith, h)))

pub none_free :
    {m k : ℕ} (num count : ℤ)
    → num ≡ pos k
    → count ≡ pos m
    → m ≡ k
    → leb_ℤ (num -ℤ count) (pos 0) ≡ true
none_free {m} {k} num count n u h =
    rw (n, u) (rw (pos--ℤ-pos k m (omega (arith, h))) (ground (arith, h)))

pub all_in_use :
    {m k : ℕ} (num count : ℤ) → num ≡ pos k → count ≡ pos m → m ≡ k → eq_ℤ count num ≡ true
all_in_use num count n u h = (eq_ℤ_iff count num).1 (u ∙ ap (λ i. pos i) h ∙ sym n)

pub not_all :
    {m k : ℕ} (num count : ℤ) → num ≡ pos k → count ≡ pos m → m < k → eq_ℤ count num ≡ false
not_all num count n u h = rw (n, u) (ground (arith, h))

pub never : (r a : ℕ) → pos 0 ≢ pos (suc r * suc a)
never r a h =
    let e : 0 ≡ suc r * suc a = ap pos_part h in
    let e' : 0 ≡ suc (suc r * a + r) = simp unary_clauses at e in omega (arith, e')

pub carry_over : {a b c d : Type 0} → (a ↔ (b ⊎ c)) → (c ↔ d) → a ↔ (b ⊎ d)
carry_over f g = (
  (λ x. elim (f.0 x) [ inl y ↦ inl y | inr y ↦ inr (g.0 y) ]),
  λ x. elim x [ inl y ↦ f.1 (inl y) | inr y ↦ f.1 (inr (g.1 y)) ],
)
