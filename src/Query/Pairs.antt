-- ===== src/Query/Pairs.antt =====
-- Keys and values as a query has them, and what the loop reads from them.
use ttracker.Base.{
  ℕ, zero, suc, ◌+◌, ◌<◌, ◌≤◌, ◌≡◌, ◌≢◌, refl, ap, ◌∙◌, false, some, List, [], ◌∷◌, ◌++◌, Bytes,
  codes, length, drop, arith, All, All-append, length-append, append_assoc,
}
use ttracker.Memory.{cells}
use ttracker.Build.{KeyVal}
use ttracker.Query.{up_to_nul, is_empty, max_key, max_val, parse_pairs}
use ttracker.Query.Text.{span, round, parse_pairs-step}

-- `key=value&…&key=value`
abbrev pub print_pair : KeyVal → Bytes
print_pair np = np.key ++ b'=' ∷ np.val

unfoldable pub print_query : List KeyVal → Bytes
print_query [] = []
print_query (np ∷ []) = print_pair np
print_query (np ∷ nq ∷ list) = print_pair np ++ b'&' ∷ print_query (nq ∷ list)

-- A char inside a key or a value.
abbrev pub Inside : ℕ → ℕ → Type 0
Inside stop c = (c ≢ stop) × (c ≢ 0) × (c ≢ b'\n')

-- A pair whose key and value have room, the value with the rest of the line, and no char that ends
-- it.
pub record IsPair (np : KeyVal) : Type 0 where
  pub some_key : np.key ≢ []
  pub short_key : length np.key ≤ 127
  pub short_val : length np.val ≤ 245
  pub key_chars : All (Inside b'=') np.key
  pub val_chars : All (Inside b'&') np.val

span-stop :
    (stop n : ℕ) (s t : Bytes)
    → All (Inside stop) s
    → length s ≤ n
    → span stop n (s ++ stop ∷ t) ≡ (s, stop ∷ t)
unfolding span
span-stop stop zero [] t a h = refl
span-stop stop zero (c ∷ s) t a h = absurd (omega (arith, h))
span-stop stop (suc n) [] t a h = ground arith
span-stop stop (suc n) (c ∷ s) t a h = ground (arith, span-stop stop n s t a.1, a.0.0)

span-All : (stop n : ℕ) (s : Bytes) → All (λ c. c ≢ stop) s → length s ≤ n → span stop n s ≡ (s, [])
unfolding span
span-All stop zero [] a h = refl
span-All stop zero (c ∷ s) a h = absurd (omega (arith, h))
span-All stop (suc n) [] a h = refl
span-All stop (suc n) (c ∷ s) a h = ground (arith, span-All stop n s a.1, a.0)

up_to_nul-All : (stop : ℕ) (s : Bytes) → All (Inside stop) s → up_to_nul s ≡ s
unfolding up_to_nul
up_to_nul-All stop [] a = refl
up_to_nul-All stop (c ∷ s) a = ground (arith, up_to_nul-All stop s a.1, a.0.1)

up_to_nul-cut : (stop : ℕ) (s t : Bytes) → All (Inside stop) s → up_to_nul (s ++ 0 ∷ t) ≡ s
unfolding up_to_nul
up_to_nul-cut stop [] t a = refl
up_to_nul-cut stop (c ∷ s) t a = ground (arith, up_to_nul-cut stop s t a.1, a.0.1)

outside : (stop : ℕ) (s : Bytes) → All (Inside stop) s → All (λ c. c ≢ stop) s
outside stop [] a = tt
outside stop (c ∷ s) a = (a.0.0, outside stop s a.1)

-- What stands behind the last value: the NUL, and the version of the protocol.
abbrev pub tail : Bytes
tail = 0 ∷ codes "HTTP/1.1\r"

not_empty : (s : Bytes) → s ≢ [] → is_empty s ≡ false
not_empty [] h = absurd (h refl)
not_empty (c ∷ s) h = refl

round_of :
    (s k t v u : Bytes)
    → span b'=' max_key s ≡ (k, b'=' ∷ t)
    → span b'&' max_val t ≡ (v, u)
    → is_empty k ≡ false
    → round s ≡ some (record { key = up_to_nul k; val = up_to_nul v }, drop 1 u)
round_of s k t v u e f n = rw (e, f, n) refl

round-middle :
    (np : KeyVal) (t : Bytes) → IsPair np → round (print_pair np ++ b'&' ∷ t) ≡ some (np, t)
round-middle np t v =
    ap (λ s. round s) (append_assoc np.key (b'=' ∷ np.val) (b'&' ∷ t))
    ∙ round_of _ np.key (np.val ++ b'&' ∷ t) np.val (b'&' ∷ t)
        (span-stop b'=' max_key np.key (np.val ++ b'&' ∷ t) v.key_chars v.short_key)
        (span-stop b'&' max_val np.val t v.val_chars (omega (arith, v.short_val)))
        (not_empty np.key v.some_key)
    ∙ rw (up_to_nul-All b'=' np.key v.key_chars, up_to_nul-All b'&' np.val v.val_chars) refl

round-last : (np : KeyVal) → IsPair np → round (print_pair np ++ tail) ≡ some (np, [])
round-last np v =
    ap (λ s. round s) (append_assoc np.key (b'=' ∷ np.val) tail)
    ∙ round_of _ np.key (np.val ++ tail) (np.val ++ tail) []
        (span-stop b'=' max_key np.key (np.val ++ tail) v.key_chars v.short_key)
        (span-All b'&' max_val (np.val ++ tail)
          (All-append (λ c. c ≢ b'&') np.val tail (outside b'&' np.val v.val_chars) (omega arith))
          (omega (arith, v.short_val, length-append np.val tail)))
        (not_empty np.key v.some_key)
    ∙ rw
        (
          up_to_nul-All b'=' np.key v.key_chars,
          up_to_nul-cut b'&' np.val (codes "HTTP/1.1\r") v.val_chars,
        )
        refl

-- The pairs in front of a list, the last one first.
abbrev pub reversed_onto : List KeyVal → List KeyVal → List KeyVal
reversed_onto [] list = list
reversed_onto (np ∷ nps) list = reversed_onto nps (np ∷ list)

step_from :
    (f : ℕ) (s : Bytes) (list : List KeyVal) (np : KeyVal) (rest : Bytes)
    → length s ≤ suc f
    → round s ≡ some (np, rest)
    → 0 < length s
    → parse_pairs (suc f) (cells s) list ≡ parse_pairs f (cells rest) (np ∷ list)
step_from f [] list np rest h e n = absurd (omega (arith, n))
step_from f (c ∷ s) list np rest h e n = parse_pairs-step f c s list np rest e

length-print_pair : (np : KeyVal) → length (print_pair np) ≡ length np.key + length np.val + 1
length-print_pair np = omega (arith, length-append np.key (b'=' ∷ np.val))

parse_pairs-nil : (f : ℕ) (list : List KeyVal) → parse_pairs f [] list ≡ some (some list)
unfolding parse_pairs
parse_pairs-nil zero list = refl
parse_pairs-nil (suc f) list = refl

-- The loop reads back the pairs of a query, in reverse order.
pub parse_pairs-print :
    (nps : List KeyVal) (f : ℕ) (list : List KeyVal)
    → nps ≢ []
    → All IsPair nps
    → length (print_query nps ++ tail) ≤ f
    → parse_pairs f (cells (print_query nps ++ tail)) list ≡ some (some (reversed_onto nps list))
unfolding print_query
parse_pairs-print [] f list n a h = absurd (n refl)
parse_pairs-print (np ∷ []) zero list n a h =
    absurd (omega (arith, h, length-append (print_pair np) tail))
parse_pairs-print (np ∷ []) (suc f) list n a h =
    step_from f (print_pair np ++ tail) list np [] h (round-last np a.0)
      (omega (arith, length-append (print_pair np) tail))
    ∙ parse_pairs-nil f (np ∷ list)
parse_pairs-print (np ∷ nq ∷ nps) zero list n a h =
    absurd (omega (arith, h, length-append (print_query (np ∷ nq ∷ nps)) tail))
parse_pairs-print (np ∷ nq ∷ nps) (suc f) list n a h =
    let s = print_query (nq ∷ nps) in
    let assoc = append_assoc (print_pair np) (b'&' ∷ s) tail in
    let l = length-append (print_pair np) (b'&' ∷ (s ++ tail)) in
    let same = ap (λ t. length t) assoc in
    ap (λ t. parse_pairs (suc f) (cells t) list) assoc
    ∙ step_from f (print_pair np ++ b'&' ∷ (s ++ tail)) list np (s ++ tail) (omega (arith, h, same))
        (round-middle np (s ++ tail) a.0) (omega (arith, l))
    ∙ parse_pairs-print (nq ∷ nps) f (np ∷ list) (ground arith) a.1 (omega (arith, h, same, l))
