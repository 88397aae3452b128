-- ===== src/Query/Total.antt =====
-- The parser on any string.
use ttracker.Base.{
  ℕ, ◌-◌, ◌<◌, ◌≤◌, ◌≡◌, ◌≢◌, inl, inr, length-take, refl, sym, ap, ◌∙◌, Bool, true, false, Option,
  none, some, List, [], ◌∷◌, ◌++◌, Bytes, codes, ◌==◌, ltb, ◌||◌, length, drop, arith,
  length-append, Bool-cases,
}
use ttracker.Memory.{Object, cells}
use ttracker.Memory.Printf.{length-cells}
use ttracker.Buffer.{Buffer, object}
use ttracker.Build.{KeyVal}
use ttracker.Query.{
  JobType, announce, scrape, starts_with, parse_job, find_line, query_start, parse_query,
  check_list,
}
use ttracker.Query.Text.{parse_pairs-total}
use ttracker.Query.Line.{
  Contains, starts_with-total, find_line-total, cut, length-cut, drop-cells, query_part, after_line,
  parse_line-runs,
}

some-true : {b : Bool} → some b ≡ some true → b ≡ true
some-true h = cc

-- What passes the test of the method starts with a `G`.
starts_with-head :
    (text : Bytes) (rest : Object) (s : Bytes)
    → starts_with (cells text ++ some 0 ∷ rest) (b'G' ∷ s) ≡ some true
    → (t : Bytes) × (text ≡ b'G' ∷ t)
unfolding starts_with
starts_with-head [] rest s h = absurd (ground (arith, h))
starts_with-head (c ∷ t) rest s h = elim (Bool-cases (c == b'G')) [
  | inl e ↦ (t, ap (λ d. d ∷ t) (ground (arith, e)))
  | inr e ↦ absurd (ground (arith, e, h))
]

parse_job-neither :
    (input : Buffer)
    → starts_with (object input) (codes "GET /announce") ≡ some false
    → starts_with (object input) (codes "GET /scrape") ≡ some false
    → parse_job input ≡ some none
unfolding parse_job
parse_job-neither input e f = rw (e, f) refl

-- The test of the method ends on any string.
pub parse_job-total :
    (input : Buffer) (text : Bytes)
    → Contains input text
    → (job : Option JobType) × (parse_job input ≡ some job)
unfolding parse_job
parse_job-total input text c =
    let (a, e) = starts_with-total text c.rest (codes "GET /announce") (omega arith) in
    let (b, f) = starts_with-total text c.rest (codes "GET /scrape") (omega arith) in
    let e' = ap (λ o. starts_with o (codes "GET /announce")) c.stored ∙ e in
    let f' = ap (λ o. starts_with o (codes "GET /scrape")) c.stored ∙ f in
    elim (Bool-cases a) [
      | inl t ↦ (some announce, rw (e', t) refl)
      | inr t ↦ elim (Bool-cases b) [
        | inl u ↦ (some scrape, rw (e', t, f', u) refl)
        | inr u ↦ (none, rw (e', t, f', u) refl)
      ]
    ]

none-some : {job : JobType} → some none ≢ some (some job)
none-some h = cc

parse_job-head :
    (input : Buffer) (text : Bytes) (job : JobType)
    → Contains input text
    → parse_job input ≡ some (some job)
    → (t : Bytes) × (text ≡ b'G' ∷ t)
unfolding parse_job
parse_job-head input text job c h =
    let (b, e) = starts_with-total text c.rest (codes "GET /announce") (omega arith) in
    let (d, f) = starts_with-total text c.rest (codes "GET /scrape") (omega arith) in
    let e' = ap (λ o. starts_with o (codes "GET /announce")) c.stored ∙ e in
    let f' = ap (λ o. starts_with o (codes "GET /scrape")) c.stored ∙ f in
    elim (Bool-cases b) [
      | inl t ↦ starts_with-head text c.rest (codes "ET /announce") (e ∙ ap (λ x. some x) t)
      | inr t ↦ elim (Bool-cases d) [
        | inl u ↦ starts_with-head text c.rest (codes "ET /scrape") (f ∙ ap (λ x. some x) u)
        | inr u ↦ absurd (
            none-some (
              sym (parse_job-neither input (e' ∙ ap (λ x. some x) t) (f' ∙ ap (λ x. some x) u))
              ∙ h))
      ]
    ]

find_line-first :
    (t : Bytes) (m : Object)
    → find_line none (cells (b'G' ∷ t) ++ m) 0 (length (b'G' ∷ t))
      ≡ find_line (some b'G') (cells t ++ m) 1 (length t)
unfolding find_line
find_line-first t m = refl

-- The search of the end of the line, from the second char on.
pub find_line-from :
    (input : Buffer) (text t : Bytes) (c : Contains input text)
    → text ≡ b'G' ∷ t
    → find_line none (object input) 0 input.cursor
      ≡ find_line (some b'G') (cells t ++ some 0 ∷ c.rest) 1 (length t)
find_line-from input text t c g =
    ap (λ o. find_line none o 0 input.cursor) c.stored
    ∙ ap (λ n. find_line none (cells text ++ some 0 ∷ c.rest) 0 n) c.filled
    ∙ ap (λ s. find_line none (cells s ++ some 0 ∷ c.rest) 0 (length s)) g
    ∙ find_line-first t (some 0 ∷ c.rest)

-- What the parser keeps of the buffer: its array, and no more of it in use.
pub record IsKept (input input' : Buffer) : Type 0 where
  pub storage : length (object input') ≡ length (object input)
  pub size : input'.size ≡ input.size
  pub within : input'.cursor ≤ input.cursor

after_line-IsKept :
    (input : Buffer) (text : Bytes) (found : ℕ) (c : Contains input text)
    → 11 ≤ found
    → found < length text
    → IsKept input (after_line input text found c)
after_line-IsKept input text found c h l = record {
  storage = omega (
    arith,
    h,
    l,
    ap (λ m. length m) c.stored,
    length-append (cells (cut (found - 10) text)) (some 0 ∷ c.rest),
    length-append (cells text) (some 0 ∷ c.rest),
    length-cells (cut (found - 10) text),
    length-cells text,
    length-cut (found - 10) text (omega (arith, h, l)),
  );
  size = refl;
  within = omega arith;
}

-- A buffer that holds a string with a NUL behind it, and that was taken for a job, is parsed to the
-- end with every access inside the string, whatever the string is; the array of the buffer stays as
-- long as it is, and its cursor does not rise.
pub parse_query-total :
    (input : Buffer) (text : Bytes) (job : JobType)
    → Contains input text
    → parse_job input ≡ some (some job)
    → (input' : Buffer) × (r : Option (List KeyVal)) × (parse_query input job ≡ some (input', r))
      × IsKept input input'
unfolding parse_query
parse_query-total input text job c h =
    let (t, g) = parse_job-head input text job c h in
    let same : IsKept input input = record { storage = refl; size = refl; within = omega arith } in
    let m = some 0 ∷ c.rest in
    let (found, e, l) = find_line-total b'G' t c.rest 1 (omega arith) in
    let e' : find_line none (object input) 0 input.cursor ≡ some found =
      find_line-from input text t c g ∙ e in
    let bound : found < length text = omega (arith, l, ap (λ s. length s) g) in
    elim (Bool-cases (found == 0 || ltb found 11)) [
      | inl s ↦ (input, none, rw (e', s) refl, same)
      | inr s ↦
          let far : 11 ≤ found = ground (arith, s) in
          let (a, u) =
            starts_with-total (drop (found - 9) text) c.rest (codes "HTTP/1.1") (omega arith) in
          let (b, v) =
            starts_with-total (drop (found - 9) text) c.rest (codes "HTTP/1.0") (omega arith) in
          let from =
            ap (λ o. drop (found - 9) o) c.stored
            ∙ drop-cells (found - 9) text m (omega (arith, bound)) in
          let u' = ap (λ o. starts_with o (codes "HTTP/1.1")) from ∙ u in
          let v' = ap (λ o. starts_with o (codes "HTTP/1.0")) from ∙ v in
          let (r, p) = parse_pairs-total (found - query_start job) (query_part job found text) [] (
            omega (
              arith,
              length-take (found - query_start job)
                  (drop (query_start job) (cut (found - 10) text)),
            )) in
          let kept = after_line-IsKept input text found c far bound in
          let line = parse_line-runs input text found job c far bound p in
          elim (Bool-cases a) [
            | inl x ↦
                (after_line input text found c, check_list job r, rw (e', s, u', x) line, kept)
            | inr x ↦ elim (Bool-cases b) [
              | inl y ↦ (
                after_line input text found c,
                check_list job r,
                rw (e', s, u', x, v', y) line,
                kept,
              )
              | inr y ↦ (input, none, rw (e', s, u', x, v', y) refl, same)
            ]
          ]
    ]
