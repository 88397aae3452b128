-- ===== src/Query/Text.antt =====
-- The loops of the parser on chars that are all written.
use ttracker.Base.{
  ℕ, zero, suc, ◌+◌, ◌<◌, ◌≤◌, ◌≡◌, inl, inr, refl, ap, ◌∙◌, Bool, true, false, Option, none, some,
  List, [], ◌∷◌, Bytes, ◌==◌, if◌then◌else◌, ◌>>=◌, length, drop, arith, Bool-cases, Option-cases,
}
use mathlib.Core.Option
use ttracker.Memory.{Object, cells}
use ttracker.Build.{KeyVal}
use ttracker.Query.{
  copy_until, up_to_nul, is_empty, max_key, max_val, read_val, read_pair, parse_pairs,
}

-- `copy_until` on bytes.
unfoldable pub span : ℕ → ℕ → Bytes → Bytes × Bytes
span stop zero s = ([], s)
span stop (suc n) [] = ([], [])
span stop (suc n) (c ∷ s) =
    if c == stop then ([], c ∷ s) else (c ∷ (span stop n s).0, (span stop n s).1)

copy_until-cells :
    (stop n : ℕ) (s : Bytes)
    → copy_until stop n (cells s) ≡ some ((span stop n s).0, cells (span stop n s).1)
unfolding copy_until span
copy_until-cells stop zero s = refl
copy_until-cells stop (suc n) [] = refl
copy_until-cells stop (suc n) (c ∷ s) = elim (Bool-cases (c == stop)) [
  | inl e ↦ rw e refl
  | inr e ↦ rw (e, copy_until-cells stop n s) refl
]

length-span :
    (stop n : ℕ) (s : Bytes) → length (span stop n s).0 + length (span stop n s).1 ≡ length s
unfolding span
length-span stop zero s = omega arith
length-span stop (suc n) [] = omega arith
length-span stop (suc n) (c ∷ s) = ground (arith, length-span stop n s)

drop_one-cells : (s : Bytes) → drop 1 (cells s) ≡ cells (drop 1 s)
drop_one-cells [] = refl
drop_one-cells (c ∷ s) = refl

length-drop_one : (s : Bytes) → length (drop 1 s) ≤ length s
length-drop_one [] = omega arith
length-drop_one (c ∷ s) = omega arith

-- What one round finds, and what it leaves to scan.
abbrev pub round : Bytes → Option (KeyVal × Bytes)
round s =
    let (k, t) = span b'=' max_key s in
    let (v, u) = span b'&' max_val (drop 1 t) in
    if is_empty k then none else some (record { key = up_to_nul k; val = up_to_nul v }, drop 1 u)

abbrev in_cells : KeyVal × Bytes → KeyVal × Object
in_cells r = (r.0, cells r.1)

read_val-cells :
    (k s : Bytes)
    → read_val k (cells s)
      ≡ some (
        record { key = up_to_nul k; val = up_to_nul (span b'&' max_val s).0 },
        cells (drop 1 (span b'&' max_val s).1),
      )
unfolding read_val
read_val-cells k s =
    ap (λ o. o >>= λ v. some (record { key = up_to_nul k; val = up_to_nul v.0 }, drop 1 v.1))
      (copy_until-cells b'&' max_val s)
    ∙ ap (λ u. some (record { key = up_to_nul k; val = up_to_nul (span b'&' max_val s).0 }, u))
        (drop_one-cells (span b'&' max_val s).1)

pub read_pair-cells : (s : Bytes) → read_pair (cells s) ≡ some (Option.map in_cells (round s))
unfolding read_pair
read_pair-cells s =
    let (k, t) = span b'=' max_key s in
    ap
      (λ o. o >>= λ k.
        if is_empty k.0 then some none else (read_val k.0 (drop 1 k.1) >>= λ r. some (some r)))
      (copy_until-cells b'=' max_key s)
    ∙ elim (Bool-cases (is_empty k)) [
      | inl e ↦ rw e refl
      | inr e ↦ rw e (
          ap (λ u. read_val k u >>= λ r. some (some r)) (drop_one-cells t)
          ∙ ap (λ o. o >>= λ r. some (some r)) (read_val-cells k (drop 1 t)))
    ]

nonempty : (s : Bytes) → is_empty s ≡ false → 0 < length s
nonempty [] h = absurd (cc)
nonempty (c ∷ s) h = omega arith

if_some {ℓ} :
    {A : Type ℓ} (b : Bool) {x y : A}
    → (if b then none else some x) ≡ some y
    → (b ≡ false) × (x ≡ y)
if_some true h = cc
if_some false h = (refl, ground (arith, h))

length-round :
    (s : Bytes) (np : KeyVal) (rest : Bytes) → round s ≡ some (np, rest) → length rest < length s
length-round s np rest h =
    let (k, t) = span b'=' max_key s in
    let (v, u) = span b'&' max_val (drop 1 t) in
    let (e, q) = if_some (is_empty k) h in
    let same : drop 1 u ≡ rest = ap (λ r. r.1) q in
    omega (
      arith,
      nonempty k e,
      length-span b'=' max_key s,
      length-drop_one t,
      ap (λ l. length l) same,
      length-span b'&' max_val (drop 1 t),
      length-drop_one u,
    )

-- A round that finds a pair, and the loop after it.
pub parse_pairs-step :
    (f c : ℕ) (s : Bytes) (list : List KeyVal) (np : KeyVal) (rest : Bytes)
    → round (c ∷ s) ≡ some (np, rest)
    → parse_pairs (suc f) (cells (c ∷ s)) list ≡ parse_pairs f (cells rest) (np ∷ list)
unfolding parse_pairs
parse_pairs-step f c s list np rest e =
    ap
      (λ o. o >>= λ r. elim r as (λ _. Option (Option (List KeyVal))) [
        | none ↦ some none
        | some (np, rest) ↦ parse_pairs f rest (np ∷ list)
      ])
      (read_pair-cells (c ∷ s) ∙ ap (λ r. some (Option.map in_cells r)) e)

-- With as much fuel as there are chars, the loop ends.
pub parse_pairs-total :
    (f : ℕ) (s : Bytes) (list : List KeyVal)
    → length s ≤ f
    → (r : Option (List KeyVal)) × (parse_pairs f (cells s) list ≡ some r)
unfolding parse_pairs
parse_pairs-total f [] list h = (some list, refl)
parse_pairs-total zero (c ∷ s) list h = absurd (omega (arith, h))
parse_pairs-total (suc f) (c ∷ s) list h = elim (Option-cases (round (c ∷ s))) [
  | inl e ↦ (
    none,
    ap
        (λ o. o >>= λ r. elim r as (λ _. Option (Option (List KeyVal))) [
          | none ↦ some none
          | some (np, rest) ↦ parse_pairs f rest (np ∷ list)
        ])
        (read_pair-cells (c ∷ s) ∙ ap (λ r. some (Option.map in_cells r)) e),
  )
  | inr ((np, rest), e) ↦
      let (r, t) =
        parse_pairs-total f rest (np ∷ list) (omega (arith, length-round (c ∷ s) np rest e, h)) in
      (r, parse_pairs-step f c s list np rest e ∙ t)
]
