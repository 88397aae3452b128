-- ===== src/Response/Head.antt =====
-- What the buffer of a response holds.
use ttracker.Base.{
  ℕ, zero, suc, ◌+◌, ◌*◌, ◌^◌, ◌<◌, ◌≤◌, ◌≡◌, inl, inr, refl, sym, ap, ◌∙◌, some, List, [], ◌∷◌,
  ◌++◌, Bytes, codes, ltb, if◌then◌else◌, ◌==◌, true, ◌>>=◌, length, arith, Bool-cases,
  append_assoc, append-nil, length-append, take_all,
}
use ttracker.Base.Decimal.{digits, print_int, length-digits-le}
use ttracker.Memory.{cells}
use ttracker.Memory.Printf.{cells-append}
use ttracker.Buffer.{Buffer, buffer_len}
use ttracker.Buffer.Growth.{IsValid, contents}
use ttracker.Buffer.Contents.{Holds, append_string_lem}
use ttracker.Buffer.Transfer.{append_to_buffer_lem}
use ttracker.Response.{status_line, closing, head_lines, append_strings, fill_response}

abbrev pub concat : List Bytes → Bytes
concat [] = []
concat (s ∷ ss) = s ++ concat ss

-- Strings one after the other.
pub append_strings_lem :
    (b : Buffer) (ss : List Bytes)
    → IsValid b
    → b.size + length (concat ss) + 65 * length ss < 2 ^ 31
    → (b' : Buffer) × (append_strings b ss ≡ some b')
      × Holds (contents b ++ cells (concat ss)) b'
      × (b'.size ≤ b.size + length (concat ss) + 65 * length ss)
unfolding append_strings
append_strings_lem b [] v k =
    (b, refl, record { valid = v; held = sym (append-nil (contents b)) }, omega arith)
append_strings_lem b (s ∷ ss) v k =
    let l = length-append s (concat ss) in
    let (b1, r1, h1, _, s1) = append_string_lem b s v (omega (arith, k, l)) in
    let (b2, r2, h2, s2) = append_strings_lem b1 ss h1.valid (omega (arith, k, l, s1)) in
    let held =
      h2.held
      ∙ ap (λ m. m ++ cells (concat ss)) h1.held
      ∙ append_assoc (contents b) (cells s) (cells (concat ss))
      ∙ ap (λ m. contents b ++ m) (sym (cells-append s (concat ss))) in
    (b2, rw r1 r2, record { valid = h2.valid; held = held }, omega (arith, s1, s2, l))

-- The head of a response: the status, and for a body that is not empty its length and three more
-- lines.
abbrev pub fields : ℕ → Bytes
fields zero = []
fields (suc n) =
    codes "\ncontent-length: "
    ++ (digits (suc n)
        ++ codes "\ncontent-type: text/plain\nserver: topkek-0.1\nconnection: close\n")

abbrev pub head_text : ℕ → ℕ → Bytes
head_text code n = status_line code ++ (fields n ++ codes "\r\n")

digits_short : (n : ℕ) → n < 2 ^ 31 → length (digits n) ≤ 10
digits_short n h = length-digits-le n 9 (omega (arith, h))

-- The length fits its array.
closing-whole :
    (n : ℕ) → n < 2 ^ 31 → closing n ≡ codes "\ncontent-length: " ++ (digits n ++ codes "\n")
unfolding closing print_int
closing-whole n h =
    take_all (codes "\ncontent-length: " ++ (digits n ++ codes "\n")) 63
      (omega (arith, digits_short n h, length-append (digits n) (codes "\n")))

abbrev lines : ℕ → List Bytes
lines n =
    closing n
    ∷ codes "content-type: text/plain\n"
    ∷ codes "server: topkek-0.1\n"
    ∷ codes "connection: close\n"
    ∷ []

concat-head : (code n : ℕ) → n < 2 ^ 31 → concat (head_lines code n) ≡ head_text code n
unfolding head_lines
concat-head code zero h = refl
concat-head code (suc n) h =
    let more : ltb 0 (suc n) ≡ true = ground arith in
    let rest = codes "content-type: text/plain\nserver: topkek-0.1\nconnection: close\n\r\n" in
    ap (λ b. status_line code ++ concat ((if b then lines (suc n) else []) ++ codes "\r\n" ∷ []))
      more
    ∙ ap (λ c. status_line code ++ (c ++ rest)) (closing-whole (suc n) h)
    ∙ ap (λ c. status_line code ++ (codes "\ncontent-length: " ++ c))
        (append_assoc (digits (suc n)) (codes "\n") rest)
    ∙ ap (λ c. status_line code ++ (codes "\ncontent-length: " ++ c))
        (sym (
          append_assoc (digits (suc n))
            (codes "\ncontent-type: text/plain\nserver: topkek-0.1\nconnection: close\n")
            (codes "\r\n")))

status_short : (code : ℕ) → length (status_line code) ≤ 40
unfolding status_line
status_short code = elim (Bool-cases (code == 200)) [
  | inl e ↦ rw e (omega arith)
  | inr e ↦ elim (Bool-cases (code == 400)) [
    | inl f ↦ rw (e, f) (omega arith)
    | inr f ↦ rw (e, f) (omega arith)
  ]
]

fields_short : (n : ℕ) → n < 2 ^ 31 → length (fields n) ≤ 120
fields_short zero h = omega arith
fields_short (suc n) h =
    let t = codes "\ncontent-type: text/plain\nserver: topkek-0.1\nconnection: close\n" in
    omega (arith, digits_short (suc n) h, length-append (digits (suc n)) t)

head_short : (code n : ℕ) → n < 2 ^ 31 → length (head_text code n) ≤ 200
head_short code n h = omega (
  arith,
  status_short code,
  fields_short n h,
  length-append (status_line code) (fields n ++ codes "\r\n"),
  length-append (fields n) (codes "\r\n"),
)

few_lines : (code n : ℕ) → length (head_lines code n) ≤ 6
unfolding head_lines
few_lines code n = elim (Bool-cases (ltb 0 n)) [
  | inl e ↦ rw e (omega arith)
  | inr e ↦ rw e (omega arith)
]

-- The buffer of a response.
pub fill_response_lem :
    (b body : Buffer) (code : ℕ)
    → Holds [] b
    → IsValid body
    → b.size + body.cursor + 1000 < 2 ^ 31
    → (b' : Buffer) × (fill_response b body code ≡ some b')
      × Holds (cells (head_text code body.cursor) ++ contents body) b'
unfolding fill_response buffer_len
fill_response_lem b body code h v k =
    let n = body.cursor in
    let c = concat-head code n (omega (arith, k)) in
    let s = head_short code n (omega (arith, k)) in
    let t = few_lines code n in
    let l = ap (λ x. length x) c in
    let (b1, r1, h1, s1) =
      append_strings_lem b (head_lines code n) h.valid (omega (arith, k, s, t, l)) in
    let (b2, r2, h2, s2) =
      append_to_buffer_lem b1 body h1.valid v (omega (arith, k, s, t, l, s1)) in
    let held =
      h2.held
      ∙ ap (λ m. m ++ contents body)
          (h1.held
            ∙ ap (λ m. m ++ cells (concat (head_lines code n))) h.held
            ∙ ap (λ x. cells x) c) in
    (b2, rw r1 (ap (λ o. o >>= λ r. r.0) r2), record { valid = h2.valid; held = held })
