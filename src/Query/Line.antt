-- ===== src/Query/Line.antt =====
-- The request line: where it ends, and what it starts with.
use ttracker.Base.{
  ℕ, zero, suc, ◌+◌, ◌-◌, ◌<◌, ◌≤◌, ◌≡◌, ◌⊎◌, inl, inr, refl, sym, ap, ◌∙◌, Bool, true, false,
  Option, some, List, [], ◌∷◌, ◌++◌, Bytes, ◌==◌, length, take, drop, arith, length-append,
  length-take, length-drop, Bool-cases, length-map, take-append,
}
use ttracker.Memory.{Object, Cell, cells, write_at}
use ttracker.Memory.Laws.{IsText, write_at-in_bounds}
use ttracker.Buffer.{Buffer, object}
use ttracker.Build.{KeyVal}
use ttracker.Query.{
  JobType, announce, scrape, starts_with, find_line, query_start, parse_pairs, parse_line,
  check_list,
}

-- A buffer that holds a string, with its NUL behind it.
pub record Contains (input : Buffer) (text : Bytes) : Type 0 where
  pub rest : Object
  pub stored : object input ≡ cells text ++ some 0 ∷ rest
  pub filled : input.cursor ≡ length text
  pub plain : IsText text

-- The comparison stops at the NUL at the latest.
pub starts_with-total :
    (text : Bytes) (rest : Object) (s : Bytes)
    → IsText s
    → (b : Bool) × (starts_with (cells text ++ some 0 ∷ rest) s ≡ some b)
unfolding starts_with
starts_with-total text rest [] h = (true, refl)
starts_with-total [] rest (c ∷ s) h = (false, ground (arith, h.0))
starts_with-total (d ∷ text) rest (c ∷ s) h = elim (Bool-cases (d == c)) [
  | inl e ↦ let (b, t) = starts_with-total text rest s h.1 in (b, rw e t)
  | inr e ↦ (false, rw e refl)
]

pub drop-cells :
    (k : ℕ) (text : Bytes) (m : Object)
    → k ≤ length text
    → drop k (cells text ++ m) ≡ cells (drop k text) ++ m
drop-cells zero text m h = refl
drop-cells (suc k) [] m h = absurd (omega (arith, h))
drop-cells (suc k) (c ∷ text) m h = drop-cells k text m (omega (arith, h))

-- In a string that does not start with a line feed, the search stays inside the string, and the
-- index that it finds is one of the string.
pub find_line-total :
    (d : ℕ) (text : Bytes) (rest : Object) (i : ℕ)
    → 0 < i
    → (found : ℕ) × (find_line (some d) (cells text ++ some 0 ∷ rest) i (length text) ≡ some found)
      × (found < i + length text)
unfolding find_line
find_line-total d [] rest i pos = (0, refl, omega (arith, pos))
find_line-total d (c ∷ text) rest i pos =
    let (found, e, l) = find_line-total c text rest (i + 1) (omega arith) in
    elim (Bool-cases (c == b'\n')) [
      | inl n ↦ elim (Bool-cases (d == b'\r')) [
        | inl r ↦ (i, rw (n, r) refl, omega arith)
        | inr r ↦ (found, rw (n, r) e, omega (arith, l))
      ]
      | inr n ↦ (found, rw n e, omega (arith, l))
    ]

-- The chars with a NUL put at `k`.
abbrev pub cut : ℕ → Bytes → Bytes
cut k text = take k text ++ 0 ∷ drop (suc k) text

take-cells : (k : ℕ) (text : Bytes) → take k (cells text) ≡ cells (take k text)
take-cells zero text = refl
take-cells (suc k) [] = refl
take-cells (suc k) (c ∷ text) = ap (λ t. some c ∷ t) (take-cells k text)

cut-cells :
    (k : ℕ) (text : Bytes) (m : Object)
    → k < length text
    → take k (cells text ++ m) ++ some 0 ∷ drop (suc k) (cells text ++ m) ≡ cells (cut k text) ++ m
cut-cells k [] m h = absurd (omega (arith, h))
cut-cells zero (c ∷ text) m h = refl
cut-cells (suc k) (c ∷ text) m h = ap (λ t. some c ∷ t) (cut-cells k text m (omega (arith, h)))

pub write_at-cells :
    (k : ℕ) (text : Bytes) (m : Object)
    → k < length text
    → write_at (cells text ++ m) k (some 0 ∷ []) ≡ some (cells (cut k text) ++ m)
write_at-cells k text m h =
    let inside : k + 1 ≤ length (cells text ++ m) =
      omega (arith, h, length-append (cells text) m, length-map {A = ℕ} {B = Cell} some text) in
    let e : k + 1 ≡ suc k = omega arith in
    write_at-in_bounds (cells text ++ m) k (some 0 ∷ []) inside
    ∙ ap (λ n. some (take k (cells text ++ m) ++ some 0 ∷ drop n (cells text ++ m))) e
    ∙ ap (λ o. some o) (cut-cells k text m h)

-- The part of a line that is scanned.
pub region-cells :
    (text : Bytes) (m : Object) (i n : ℕ)
    → i + n ≤ length text
    → take n (drop i (cells text ++ m)) ≡ cells (take n (drop i text))
region-cells text m i n h =
    ap (λ o. take n o) (drop-cells i text m (omega (arith, h)))
    ∙ take-append (cells (drop i text)) m n
        (omega (arith, h, length-drop i text, length-map {A = ℕ} {B = Cell} some (drop i text)))
    ∙ take-cells n (drop i text)

pub length-cut : (k : ℕ) (text : Bytes) → k < length text → length (cut k text) ≡ length text
length-cut k text h = omega (
  arith,
  h,
  length-append (take k text) (0 ∷ drop (suc k) text),
  length-take k text,
  length-drop (suc k) text,
)

-- The part that the query is read from.
abbrev pub query_part : JobType → ℕ → Bytes → Bytes
query_part job found text =
    take (found - query_start job) (drop (query_start job) (cut (found - 10) text))

query_start-le : (job : JobType) → query_start job ≤ 14
query_start-le announce = omega arith
query_start-le scrape = omega arith

query_region :
    (text : Bytes) (m : Object) (start found : ℕ)
    → 11 ≤ found
    → found < length text
    → take (found - start) (drop start (cells (cut (found - 10) text) ++ m))
      ≡ cells (take (found - start) (drop start (cut (found - 10) text)))
query_region text m start found h k = elim (cases start found) [
  | inl l ↦
      region-cells (cut (found - 10) text) m start (found - start)
        (omega (arith, l, h, k, length-cut (found - 10) text (omega (arith, h, k))))
  | inr l ↦
      let e : found - start ≡ 0 = omega (arith, l) in
      ap (λ n. take n (drop start (cells (cut (found - 10) text) ++ m))) e
      ∙ ap (λ n. cells (take n (drop start (cut (found - 10) text)))) (sym e)
]
  where
    cases : (a b : ℕ) → (a ≤ b) ⊎ (b < a)
    cases a b = omega arith

-- The buffer after a line was split.
abbrev pub after_line : (input : Buffer) (text : Bytes) (found : ℕ) → Contains input text → Buffer
after_line input text found c = record input {
  p = some (cells (cut (found - 10) text) ++ some 0 ∷ c.rest);
  cursor = input.cursor - 11;
}

-- What the end of the parser does on a string: the result of the pairs and the checks.
pub parse_line-runs :
    (input : Buffer) (text : Bytes) (found : ℕ) (job : JobType) {r : Option (List KeyVal)}
    (c : Contains input text)
    → 11 ≤ found
    → found < length text
    → parse_pairs (found - query_start job) (cells (query_part job found text)) [] ≡ some r
    → parse_line input found job ≡ some (after_line input text found c, check_list job r)
unfolding parse_line
parse_line-runs input text found job {r} c h k e =
    let m = some 0 ∷ c.rest in
    let w =
      ap (λ o. write_at o (found - 10) (some 0 ∷ [])) c.stored
      ∙ write_at-cells (found - 10) text m (omega (arith, h, k)) in
    let q =
      ap (λ o. parse_pairs (found - query_start job) o [])
        (query_region text m (query_start job) found h k)
      ∙ e in
    rw w (rw q refl)
