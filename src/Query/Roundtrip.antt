-- ===== src/Query/Roundtrip.antt =====
-- A request as a client prints it, through the parser.
use ttracker.Base.{
  ℕ, ◌+◌, ◌-◌, ◌<◌, ◌≤◌, ◌≡◌, ◌≢◌, refl, sym, ap, ◌∙◌, true, false, none, some, List, [], ◌∷◌, ◌++◌,
  Bytes, codes, ◌==◌, ltb, ◌||◌, length, take, drop, arith, All, All-append, length-append,
  append_assoc, drop-append_past, take-append_past,
}
use ttracker.Memory.{Object, cells}
use ttracker.Buffer.{Buffer, object}
use ttracker.Build.{KeyVal}
use ttracker.Query.{
  JobType, announce, scrape, starts_with, parse_job, find_line, query_start, parse_pairs,
  parse_query, check_keys,
}
use ttracker.Query.Line.{Contains, cut, drop-cells, query_part, after_line, parse_line-runs}
use ttracker.Query.Pairs.{
  Inside, IsPair, print_pair, print_query, tail, reversed_onto, parse_pairs-print,
}
use ttracker.Query.Total.{find_line-from}

-- `GET` and the path, up to the `?`.
abbrev pub path_rest : JobType → Bytes
path_rest announce = codes "ET /announce?"
path_rest scrape = codes "ET /scrape?"

abbrev pub path : JobType → Bytes
path job = b'G' ∷ path_rest job

-- A request with a query: the headers follow the first line.
abbrev pub request_text : JobType → List KeyVal → Bytes → Bytes
request_text job nps headers =
    path job ++ (print_query nps ++ b' ' ∷ (codes "HTTP/1.1\r\n" ++ headers))

not_lf : (stop : ℕ) (s : Bytes) → All (Inside stop) s → All (λ c. c ≢ b'\n') s
not_lf stop [] a = tt
not_lf stop (c ∷ s) a = (a.0.2, not_lf stop s a.1)

print_pair-not_lf : (np : KeyVal) → IsPair np → All (λ c. c ≢ b'\n') (print_pair np)
print_pair-not_lf np v =
    All-append (λ c. c ≢ b'\n') np.key (b'=' ∷ np.val) (not_lf b'=' np.key v.key_chars)
      (omega arith, not_lf b'&' np.val v.val_chars)

print_query-not_lf : (nps : List KeyVal) → All IsPair nps → All (λ c. c ≢ b'\n') (print_query nps)
unfolding print_query
print_query-not_lf [] a = tt
print_query-not_lf (np ∷ []) a = print_pair-not_lf np a.0
print_query-not_lf (np ∷ nq ∷ nps) a =
    All-append (λ c. c ≢ b'\n') (print_pair np) (b'&' ∷ print_query (nq ∷ nps))
      (print_pair-not_lf np a.0) (omega arith, print_query-not_lf (nq ∷ nps) a.1)

-- The first line feed behind a carriage return.
find_line-line :
    (s : Bytes) (d i : ℕ) (r : Bytes) (m : Object)
    → All (λ c. c ≢ b'\n') s
    → find_line (some d) (cells (s ++ b'\r' ∷ b'\n' ∷ r) ++ m) i (length (s ++ b'\r' ∷ b'\n' ∷ r))
      ≡ some (i + length s + 1)
unfolding find_line
find_line-line [] d i r m a = ap (λ n. some n) (omega arith)
find_line-line (c ∷ s) d i r m a =
    let e : (c == b'\n') ≡ false = ground (arith, a.0) in
    rw e (find_line-line s c (i + 1) r m a.1 ∙ ap (λ n. some n) (omega arith))

cut-append : (a : Bytes) (c : ℕ) (t : Bytes) → cut (length a) (a ++ c ∷ t) ≡ a ++ 0 ∷ t
cut-append [] c t = refl
cut-append (b ∷ a) c t = ap (λ s. b ∷ s) (cut-append a c t)

length-path : (job : JobType) → length (path job) ≡ query_start job
length-path announce = refl
length-path scrape = refl

path_rest-not_lf : (job : JobType) → All (λ c. c ≢ b'\n') (path_rest job)
path_rest-not_lf announce = omega arith
path_rest-not_lf scrape = omega arith

-- The method and the path are recognised.
pub parse_job-print :
    (input : Buffer) (job : JobType) (nps : List KeyVal) (headers : Bytes)
    → Contains input (request_text job nps headers)
    → parse_job input ≡ some (some job)
unfolding parse_job starts_with
parse_job-print input announce nps headers c = rw (c.stored) refl
parse_job-print input scrape nps headers c = rw (c.stored) refl

-- The path and the query, which the version follows.
abbrev pub before : JobType → List KeyVal → Bytes
before job nps = path job ++ print_query nps

abbrev pub line_end : JobType → List KeyVal → ℕ
line_end job nps = length (before job nps) + 10

request_text-line :
    (job : JobType) (nps : List KeyVal) (headers : Bytes)
    → request_text job nps headers
      ≡ b'G'
        ∷ ((path_rest job ++ (print_query nps ++ codes " HTTP/1.1")) ++ b'\r' ∷ b'\n' ∷ headers)
request_text-line job nps headers =
    ap (λ s. path job ++ s)
      (sym (append_assoc (print_query nps) (codes " HTTP/1.1") (b'\r' ∷ b'\n' ∷ headers)))
    ∙ sym (append_assoc (path job) (print_query nps ++ codes " HTTP/1.1") (b'\r' ∷ b'\n' ∷ headers))

-- The end of the first line is found.
find_line-print :
    (input : Buffer) (job : JobType) (nps : List KeyVal) (headers : Bytes)
    → All IsPair nps
    → (c : Contains input (request_text job nps headers))
    → find_line none (object input) 0 input.cursor ≡ some (line_end job nps)
find_line-print input job nps headers a c =
    let s = path_rest job ++ (print_query nps ++ codes " HTTP/1.1") in
    let plain =
      All-append (λ d. d ≢ b'\n') (path_rest job) (print_query nps ++ codes " HTTP/1.1")
        (path_rest-not_lf job)
        (All-append (λ d. d ≢ b'\n') (print_query nps) (codes " HTTP/1.1")
          (print_query-not_lf nps a) (omega arith)) in
    let n : 1 + length s + 1 ≡ line_end job nps = omega (
      arith,
      length-append (path_rest job) (print_query nps ++ codes " HTTP/1.1"),
      length-append (print_query nps) (codes " HTTP/1.1"),
      length-append (path job) (print_query nps),
    ) in
    find_line-from input (request_text job nps headers) (s ++ b'\r' ∷ b'\n' ∷ headers) c
      (request_text-line job nps headers)
    ∙ find_line-line s b'G' 1 headers (some 0 ∷ c.rest) plain
    ∙ ap (λ n. some n) n

request_text-before :
    (job : JobType) (nps : List KeyVal) (headers : Bytes)
    → request_text job nps headers ≡ before job nps ++ b' ' ∷ (codes "HTTP/1.1\r\n" ++ headers)
request_text-before job nps headers =
    sym (append_assoc (path job) (print_query nps) (b' ' ∷ (codes "HTTP/1.1\r\n" ++ headers)))

-- The version stands behind the blank.
version-print :
    (job : JobType) (nps : List KeyVal) (headers : Bytes) (m : Object)
    → starts_with
        (drop (line_end job nps - 9) (cells (request_text job nps headers) ++ m))
        (codes "HTTP/1.1")
      ≡ some true
unfolding starts_with
version-print job nps headers m =
    let a = before job nps in
    let t = codes "HTTP/1.1\r\n" ++ headers in
    let k : line_end job nps - 9 ≡ length (a ++ b' ' ∷ []) =
      omega (arith, length-append a (b' ' ∷ [])) in
    let e = request_text-before job nps headers ∙ sym (append_assoc a (b' ' ∷ []) t) in
    let room : length (a ++ b' ' ∷ []) ≤ length ((a ++ b' ' ∷ []) ++ t) =
      omega (arith, length-append (a ++ b' ' ∷ []) t) in
    ap (λ n. starts_with (drop n (cells (request_text job nps headers) ++ m)) (codes "HTTP/1.1")) k
    ∙ ap (λ s. starts_with (drop (length (a ++ b' ' ∷ [])) (cells s ++ m)) (codes "HTTP/1.1")) e
    ∙ ap (λ o. starts_with o (codes "HTTP/1.1"))
        (drop-cells (length (a ++ b' ' ∷ [])) ((a ++ b' ' ∷ []) ++ t) m room)
    ∙ ap (λ s. starts_with (cells s ++ m) (codes "HTTP/1.1")) (drop-append_past (a ++ b' ' ∷ []) t)

-- The part that the pairs are read from.
query_part-print :
    (job : JobType) (nps : List KeyVal) (headers : Bytes)
    → query_part job (line_end job nps) (request_text job nps headers) ≡ print_query nps ++ tail
query_part-print job nps headers =
    let a = before job nps in
    let q = print_query nps in
    let t = codes "HTTP/1.1\r\n" ++ headers in
    let l = length-append (path job) q in
    let k : line_end job nps - 10 ≡ length a = omega arith in
    let n : line_end job nps - length (path job) ≡ length q + 10 = omega (arith, l) in
    let cut_eq : cut (line_end job nps - 10) (request_text job nps headers)
        ≡ path job ++ (q ++ 0 ∷ t) =
      ap (λ n. cut n (request_text job nps headers)) k
      ∙ ap (λ s. cut (length a) s) (request_text-before job nps headers)
      ∙ cut-append a b' ' t
      ∙ append_assoc (path job) q (0 ∷ t) in
    ap
      (λ n.
        take (line_end job nps - n)
          (drop n (cut (line_end job nps - 10) (request_text job nps headers))))
      (sym (length-path job))
    ∙ ap (λ s. take (line_end job nps - length (path job)) (drop (length (path job)) s)) cut_eq
    ∙ ap (λ s. take (line_end job nps - length (path job)) s)
        (drop-append_past (path job) (q ++ 0 ∷ t))
    ∙ ap (λ n. take n (q ++ 0 ∷ t)) n
    ∙ take-append_past q (0 ∷ t) 10

-- A buffer that holds a request for a job, with at least one pair whose key and value have room and
-- no char that ends them, whatever headers follow: the job is recognised, the parser reads back
-- every pair, the last one first, and its answer is what the check of the keys says of them. The
-- buffer has a NUL behind the query then, and its cursor is 11 lower.
pub parse_query-print :
    (input : Buffer) (job : JobType) (nps : List KeyVal) (headers : Bytes)
    → nps ≢ []
    → All IsPair nps
    → (c : Contains input (request_text job nps headers))
    → (parse_job input ≡ some (some job))
      × (parse_query input job
          ≡ some (
            after_line input (request_text job nps headers) (line_end job nps) c,
            check_keys job (reversed_onto nps []),
          ))
unfolding parse_query
parse_query-print input job nps headers h a c =
    let found = line_end job nps in
    let text = request_text job nps headers in
    let l = length-append (path job) (print_query nps) in
    let far : (found == 0 || ltb found 11) ≡ false = ground arith in
    let is_11 =
      ap (λ o. starts_with (drop (found - 9) o) (codes "HTTP/1.1")) c.stored
      ∙ version-print job nps headers (some 0 ∷ c.rest) in
    let pairs =
      ap (λ s. parse_pairs (found - query_start job) (cells s) [])
        (query_part-print job nps headers)
      ∙ parse_pairs-print nps (found - query_start job) [] h a
          (omega (arith, l, length-path job, length-append (print_query nps) tail)) in
    let inside : found < length text = omega (
      arith,
      ap (λ s. length s) (request_text-before job nps headers),
      length-append (before job nps) (b' ' ∷ (codes "HTTP/1.1\r\n" ++ headers)),
    ) in
    let line = parse_line-runs input text found job c (omega (arith, l)) inside pairs in
    (
      parse_job-print input job nps headers c,
      rw (find_line-print input job nps headers a c, far, is_11) line,
    )
