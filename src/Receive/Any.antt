-- ===== src/Receive/Any.antt =====
-- Any request, whatever its bytes.
use ttracker.Base.{
  ℕ, zero, suc, ◌%◌, ◌+◌, ◌^◌, ◌<◌, ◌≤◌, ◌≡◌, inl, inr, refl, sym, ap, ◌∙◌, Option, some, List, [],
  ◌∷◌, ◌++◌, Bytes, ◌==◌, ltb, length, take, drop, arith, Bool-cases, Option-cases, append_assoc,
  length-take,
}
use ttracker.Memory.{cells}
use ttracker.Memory.Laws.{IsText}
use ttracker.Memory.Printf.{length-cells}
use ttracker.Buffer.{Buffer, object, zero_buffer, append_string_to_buffer}
use ttracker.Buffer.Growth.{IsValid}
use ttracker.Buffer.Contents.{Holds, append_string_lem}
use ttracker.Buffer.Transfer.{zero_buffer_lem}
use ttracker.Query.{up_to_nul}
use ttracker.Query.Line.{Contains}
use ttracker.Query.Total.{IsKept, parse_job-total, parse_query-total}
use ttracker.Response.Head.{head_text}
use ttracker.Response.Sending.{IsWrite}
use ttracker.Response.Delivered.{Outcome, query_error, http_error_lem}
use ttracker.Receive.{
  max_req_size, Received, refused, answered, enqueued, handle_request, handle_read,
}

up_to_nul-IsText : (s : Bytes) → IsText (up_to_nul s) × (length (up_to_nul s) ≤ length s)
unfolding up_to_nul
up_to_nul-IsText [] = (tt, omega arith)
up_to_nul-IsText (c ∷ s) =
    let (t, l) = up_to_nul-IsText s in
    elim (Bool-cases (c == 0)) [
      | inl e ↦ rw e (tt, omega arith)
      | inr e ↦ rw e ((ground (arith, e), t), omega (arith, l))
    ]

take-drop {ℓ} : {A : Type ℓ} (n : ℕ) (xs : List A) → take n xs ++ drop n xs ≡ xs
take-drop zero xs = refl
take-drop (suc n) [] = refl
take-drop (suc n) (x ∷ xs) = ap (λ t. x ∷ t) (take-drop n xs)

-- An empty buffer with a string appended.
append_string-Contains :
    (b : Buffer) (text : Bytes)
    → Holds [] b
    → IsText text
    → b.size + length text + 65 < 2 ^ 31
    → (b' : Buffer) × (n : _) × (append_string_to_buffer b text ≡ some (b', n))
      × Contains b' text
      × IsValid b'
append_string-Contains b text h t k =
    let (b', r, held, nul, s) = append_string_lem b text h.valid k in
    let same = held.held ∙ ap (λ m. m ++ cells text) h.held in
    let rest = drop (b'.cursor + 1) (object b') in
    let stored =
      sym (take-drop (b'.cursor + 1) (object b'))
      ∙ ap (λ m. m ++ rest) (nul ∙ ap (λ m. m ++ some 0 ∷ []) same)
      ∙ append_assoc (cells text) (some 0 ∷ []) rest in
    let filled : b'.cursor ≡ length text = omega (
      arith,
      ap (λ m. length m) same,
      length-cells text,
      length-take b'.cursor (object b'),
      held.valid.storage,
      held.valid.within,
    ) in
    (b', _, r, record { rest = rest; stored = stored; filled = filled; plain = t }, held.valid)

IsKept-IsValid : (b b' : Buffer) → IsValid b → IsKept b b' → IsValid b'
IsKept-IsValid b b' v k = record {
  storage = k.storage ∙ v.storage ∙ sym k.size;
  within = omega (arith, k.within, k.size, v.within);
  small = omega (arith, v.small, k.size);
  whole = ap (λ n. n % 64) k.size ∙ v.whole;
}

-- What a call leaves: a valid buffer, and behind a job that was enqueued an empty one; where there
-- was an answer, it was sent as any response is.
abbrev pub Left : (ℕ → ℕ → Option ℕ) → Received → Buffer → Type 0
Left write refused b' = IsValid b'
Left write (answered d) b' =
    IsValid b' × Outcome write (cells (head_text 400 (length query_error)) ++ cells query_error) d
Left write (enqueued job list) b' = Holds [] b'

handle_request-any :
    (write : ℕ → ℕ → Option ℕ) (text : Bytes) (b e c : Buffer)
    → IsWrite write
    → IsText text
    → Holds [] b
    → Holds [] e
    → Holds [] c
    → b.size + length text + 65 < 2 ^ 31
    → e.size + c.size + 2000 < 2 ^ 31
    → (r : Received) × (b' : Buffer) × (handle_request write text b e c ≡ some (r, b'))
      × Left write r b'
unfolding handle_request
handle_request-any write text b e c ok t hb he hc k l =
    let (b1, n, r1, h1, v1) = append_string-Contains b text hb t k in
    let (j, r2) = parse_job-total b1 text h1 in
    elim (Option-cases j) [
      | inl x ↦ (refused, b1, rw (r1, r2, x) refl, v1)
      | inr (job, x) ↦
          let (b2, list, r3, kept) = parse_query-total b1 text job h1 (r2 ∙ ap (λ o. some o) x) in
          let v2 = IsKept-IsValid b1 b2 v1 kept in
          elim (Option-cases list) [
            | inl y ↦
                let (d, e', c', r4, _, _, o) = http_error_lem write e c 400 ok he hc l in
                (answered d, b2, rw (r1, r2, x, r3, y, r4) refl, (v2, o))
            | inr (nps, y) ↦ (
              enqueued job nps,
              zero_buffer b2,
              rw (r1, r2, x, r3, y) refl,
              (zero_buffer_lem b2 v2).0,
            )
          ]
    ]

-- Whatever the at most 2048 bytes are that `read` gives, with three empty buffers from the pool, of
-- sizes that stay inside an int, and a `write` as documented, the call ends and no access leaves a
-- buffer: the request is refused, or it is answered with the error 400 as any response is sent, or
-- its keys and values are enqueued as a job. The caller's buffer is valid then, and empty where a
-- job was enqueued.
pub handle_read-any :
    (write : ℕ → ℕ → Option ℕ) (uri : Bytes) (b e c : Buffer)
    → IsWrite write
    → length uri ≤ max_req_size
    → Holds [] b
    → Holds [] e
    → Holds [] c
    → b.size + 2200 < 2 ^ 31
    → e.size + c.size + 2000 < 2 ^ 31
    → (r : Received) × (b' : Buffer) × (handle_read write (some uri) b e c ≡ some (r, b'))
      × Left write r b'
unfolding handle_read
handle_read-any write uri b e c ok m hb he hc k l =
    let (t, n) = up_to_nul-IsText uri in
    elim (Bool-cases (ltb (length uri) 5)) [
      | inl s ↦ (refused, b, rw s refl, hb.valid)
      | inr s ↦
          let (r, b', e', left) =
            handle_request-any write (up_to_nul uri) b e c ok t hb he hc (omega (arith, k, n, m))
              l in
          (r, b', rw s e', left)
    ]
