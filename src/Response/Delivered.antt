-- ===== src/Response/Delivered.antt =====
-- Responses through the loop of writes.
use ttracker.Base.{
  ℕ, ◌+◌, ◌^◌, ◌<◌, ◌≤◌, ◌≡◌, ◌⊎◌, inl, inr, refl, sym, ap, subst, ◌∙◌, Option, some, [], ◌++◌,
  Bytes, codes, ◌>>=◌, length, take, arith, length-append, length-take,
}
use ttracker.Base.Int.{pos}
use ttracker.Base.Decimal.{digits}
use ttracker.Memory.{Object, cells}
use ttracker.Memory.Laws.{take-take}
use ttracker.Memory.Printf.{length-cells}
use ttracker.Buffer.{Buffer, object}
use ttracker.Buffer.Growth.{IsValid, contents}
use ttracker.Buffer.Contents.{Holds, append_string_lem}
use ttracker.Bencode.{print}
use ttracker.Failure.Replies.{failure_value}
use ttracker.Response.{Delivery, status_line, http_response, http_error}
use ttracker.Response.Head.{fields, head_text, fill_response_lem}
use ttracker.Response.Sending.{IsWrite, IsComplete, IsFailed, send-terminates}

-- What becomes of a response: all of it is written, or the client has a part of it and `write`
-- failed five times.
abbrev pub Outcome : (ℕ → ℕ → Option ℕ) → Object → Delivery → Type 0
Outcome write text d = IsComplete text (length text) d ⊎ IsFailed write text (length text) 0 5 d

pub filled : (b : Buffer) (text : Object) → Holds text b → length text ≡ b.cursor
filled b text h = omega (
  arith,
  ap (λ m. length m) h.held,
  length-take b.cursor (object b),
  h.valid.storage,
  h.valid.within,
)

-- A part of the object before the cursor is a part of what the buffer holds.
part-held :
    (b : Buffer) (text : Object) (n : ℕ)
    → Holds text b
    → n ≤ b.cursor
    → take n (object b) ≡ take n text
part-held b text n h l = sym (take-take (object b) n b.cursor l) ∙ ap (λ m. take n m) h.held

send-Outcome :
    (write : ℕ → ℕ → Option ℕ) (b : Buffer) (text : Object) (d : Delivery)
    → Holds text b
    → IsComplete (object b) b.cursor d ⊎ IsFailed write (object b) b.cursor 0 5 d
    → Outcome write text d
send-Outcome write b text d h o =
    let l = filled b text h in
    elim o [
      | inl c ↦ inl (record {
        result = c.result ∙ ap (λ n. pos n) (sym l);
        whole = c.whole ∙ part-held b text b.cursor h (omega arith) ∙ ap (λ n. take n text) (sym l);
      })
      | inr v ↦ inr (record {
        result = v.result;
        refused = v.refused;
        sent = v.sent;
        less = omega (arith, v.less, l);
        part = v.part ∙ part-held b text v.sent h (omega (arith, v.less));
      })
    ]

-- With a `write` as documented, an empty buffer from the pool and a valid body, of sizes that stay
-- inside an int, every response ends: the client has the status line, the header lines and the body,
-- and the result is their number of chars; or the result is -1 after five failed writes, and the
-- client has a proper prefix of that. The buffer is valid then.
pub http_response_lem :
    (write : ℕ → ℕ → Option ℕ) (b body : Buffer) (code : ℕ)
    → IsWrite write
    → Holds [] b
    → IsValid body
    → b.size + body.cursor + 1000 < 2 ^ 31
    → (d : Delivery) × (b' : Buffer) × (http_response write b body code ≡ some (d, b'))
      × IsValid b'
      × Outcome write (cells (head_text code body.cursor) ++ contents body) d
unfolding http_response
http_response_lem write b body code ok h v k =
    let text = cells (head_text code body.cursor) ++ contents body in
    let (b', r, held) = fill_response_lem b body code h v k in
    let l = filled b' text held in
    let some_head : 0 < length text = omega (
      arith,
      length-append (cells (head_text code body.cursor)) (contents body),
      length-cells (head_text code body.cursor),
      head_nonempty code body.cursor,
    ) in
    let (d, s, o) =
      send-terminates write (object b') b'.cursor ok (omega (arith, some_head, l))
        (omega (arith, held.valid.storage, held.valid.within)) in
    (
      d,
      b',
      rw r (ap (λ o. o >>= λ d. some (d, b')) s),
      held.valid,
      send-Outcome write b' text d held o,
    )
  where
    head_nonempty : (code n : ℕ) → 0 < length (head_text code n)
    head_nonempty code n = omega (
      arith,
      length-append (status_line code) (fields n ++ codes "\r\n"),
      length-append (fields n) (codes "\r\n"),
    )

abbrev pub query_error : Bytes
query_error = print (failure_value (codes "query error"))

query_error-text : query_error ≡ codes "d14:failure reason11:query errore"
unfolding print failure_value digits
query_error-text = refl

-- The message of `http_error` is a bencoded failure: with a `write` as documented, two empty buffers
-- from the pool and sizes inside an int, it is sent as the body of a response with the given code,
-- with the outcome of any response, and both buffers stay valid.
pub http_error_lem :
    (write : ℕ → ℕ → Option ℕ) (b c : Buffer) (code : ℕ)
    → IsWrite write
    → Holds [] b
    → Holds [] c
    → b.size + c.size + 2000 < 2 ^ 31
    → (d : Delivery) × (b' : Buffer) × (c' : Buffer) × (http_error write b c code
        ≡ some (d, b', c'))
      × IsValid b'
      × IsValid c'
      × Outcome write (cells (head_text code (length query_error)) ++ cells query_error) d
unfolding http_error
http_error_lem write b c code ok hb hc k =
    let (b', r, held, _, s) =
      append_string_lem b (codes "d14:failure reason11:query errore") hb.valid (omega (arith, k)) in
    let text =
      held.held
      ∙ ap (λ m. m ++ cells (codes "d14:failure reason11:query errore")) hb.held
      ∙ ap (λ x. cells x) (sym query_error-text) in
    let l =
      sym (filled b' _ held)
      ∙ ap (λ m. length m) (sym held.held ∙ text)
      ∙ length-cells query_error in
    let e = ap (λ x. length x) query_error-text in
    let (d, c', t, v, o) =
      http_response_lem write c b' code ok hc held.valid (omega (arith, k, l, e)) in
    (
      d,
      b',
      c',
      rw r (ap (λ o. o >>= λ d. some (d.0, b', d.1)) t),
      held.valid,
      v,
      subst (λ m. Outcome write m d)
          (ap (λ m. cells (head_text code b'.cursor) ++ m) text
            ∙ ap (λ n. cells (head_text code n) ++ cells query_error) l)
          o,
    )
