-- ===== src/Failure/Replies.antt =====
-- The refusals as bencoded dictionaries.
use ttracker.Base.{
  ◌+◌, ◌<◌, ◌≤◌, ◌^◌, ◌≡◌, refl, sym, ap, subst, ◌∙◌, none, some, [], ◌++◌, Bytes, codes, ◌≢◌, ◌*◌,
  All-append, arith, length, length-append, length-replicate, replicate, append_assoc, append-nil,
}
use ttracker.Base.Decimal.{digits, digits-IsDigit, digits-nonzero, length-digits-le}
use ttracker.Memory.{Object, Cell, c_string, cells}
use ttracker.Memory.Laws.{IsText, c_string-cells}
use ttracker.Memory.Printf.{rest_after, snprintf_behind, cells-append, rest_after_nonempty}
use ttracker.Buffer.{Buffer}
use ttracker.Buffer.Growth.{IsValid, contents}
use ttracker.Buffer.Contents.{Holds, append_string_lem}
use ttracker.Bencode.{Value, bytestring, dict, pair, end, print}
use ttracker.Failure.{append, error_text, msg_failure_generic, msg_failure_missing_hash}

-- Appending, on what a buffer holds.
pub append_lem :
    (b : Buffer) (m : Object) (c : Bytes)
    → Holds m b
    → b.size + length c + 65 < 2 ^ 31
    → (b' : Buffer) × (append c b ≡ some b')
      × Holds (m ++ cells c) b'
      × (b'.size ≤ b.size + length c + 65)
unfolding append
append_lem b m c h k =
    let (b', r, held, nul, size) = append_string_lem b c h.valid k in
    (b', rw r refl, subst (λ x. Holds (x ++ cells c) b') h.held held, size)

unfoldable pub failure_value : Bytes → Value
failure_value error = dict (pair (codes "failure reason") (bytestring error) end)

reason : Bytes → Bytes
reason error = digits (length error) ++ (codes ":" ++ error)

reason-nonempty : (error : Bytes) → reason error ≢ []
unfolding reason
reason-nonempty error h =
    let e = ap (λ l. length l) h in
    omega (arith, e, length-append (digits (length error)) (codes ":" ++ error))

length-reason : (error : Bytes) → length error < 10 ^ 6 → length (reason error) < length error + 8
unfolding reason
length-reason error h = omega (
  arith,
  length-append (digits (length error)) (codes ":" ++ error),
  length-digits-le (length error) 5 h,
)

reason-IsText : (error : Bytes) → IsText error → IsText (reason error)
unfolding reason
reason-IsText error h =
    All-append (λ c. c ≢ 0) (digits (length error)) (codes ":" ++ error)
      (digits-nonzero (digits (length error)) (digits-IsDigit (length error))) (omega arith, h)

-- The array has room for the text, which is read back whole.
error_text_lem :
    (error : Bytes)
    → IsText error
    → length error < 10 ^ 6
    → (m : Object) × (error_text error ≡ some m) × (c_string m ≡ some (reason error))
unfolding error_text reason
error_text_lem error t h =
    let text = reason error in
    let r : Object = replicate (length error + 8) none in
    let room = length-replicate {0} {A = Cell} (length error + 8) none in
    let ne = reason-nonempty error in
    let printed =
      snprintf_behind [] text r (length error + 8) ne (length-reason error h)
        (omega (arith, room, length-reason error h)) in
    (
      cells text ++ rest_after text r,
      rw printed refl,
      rw (rest_after_nonempty text r ne) (c_string-cells text _ (reason-IsText error t)),
    )

reply-print :
    (error : Bytes)
    → codes "d14:failure reason" ++ (reason error ++ codes "e") ≡ print (failure_value error)
unfolding reason print failure_value digits
reply-print error =
    ap (λ x. codes "d14:failure reason" ++ (x ++ codes "e")) (sym (append-nil (reason error)))

three_pieces :
    (m : Object) (p r e : Bytes) → m ++ cells p ++ cells r ++ cells e ≡ m ++ cells (p ++ (r ++ e))
three_pieces m p r e =
    append_assoc (m ++ cells p) (cells r) (cells e)
    ∙ append_assoc m (cells p) (cells r ++ cells e)
    ∙ ap (λ u. m ++ (cells p ++ u)) (sym (cells-append r e))
    ∙ ap (λ u. m ++ u) (sym (cells-append p (r ++ e)))

-- Refusing a request with a reason of fewer than a million bytes appends, to a valid buffer whose
-- sizes stay inside an int, exactly the bencoded dictionary that gives the reason as `failure
-- reason`.
pub msg_failure_generic_lem :
    (b : Buffer) (error : Bytes)
    → IsValid b
    → IsText error
    → length error < 10 ^ 6
    → b.size + 2 * length error + 300 < 2 ^ 31
    → (b' : Buffer) × (msg_failure_generic b error ≡ some b')
      × Holds (contents b ++ cells (print (failure_value error))) b'
unfolding msg_failure_generic
msg_failure_generic_lem b error v t h k =
    let (m, e, s) = error_text_lem error t h in
    let len = length-reason error h in
    let (b1, r1, h1, s1) =
      append_lem b (contents b) (codes "d14:failure reason") (record { valid = v; held = refl })
        (omega (arith, k)) in
    let (b2, r2, h2, s2) = append_lem b1 _ (reason error) h1 (omega (arith, k, s1, len)) in
    let (b3, r3, h3, s3) = append_lem b2 _ (codes "e") h2 (omega (arith, k, s1, s2, len)) in
    (
      b3,
      rw (e, r1, s, r2, r3) refl,
      subst (λ x. Holds x b3)
          (three_pieces (contents b) (codes "d14:failure reason") (reason error) (codes "e")
            ∙ ap (λ u. contents b ++ cells u) (reply-print error))
          h3,
    )

-- A request for a torrent that is not known is refused, and its reply is the bencoded dictionary
-- with the reason `Missing "info_hash" parameter`.
pub msg_failure_missing_hash_lem :
    (b : Buffer)
    → IsValid b
    → b.size + 300 < 2 ^ 31
    → (b' : Buffer) × (msg_failure_missing_hash b ≡ some b')
      × Holds
          (contents b ++ cells (print (failure_value (codes "Missing \"info_hash\" parameter"))))
          b'
unfolding msg_failure_missing_hash print failure_value digits
msg_failure_missing_hash_lem b v k =
    let (b1, r1, h1, s1) =
      append_lem b (contents b) (codes "d14:failure reason29:Missing \"info_hash\" parametere")
        (record { valid = v; held = refl }) (omega (arith, k)) in
    (b1, r1, h1)
