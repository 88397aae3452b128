-- ===== src/Job/Rejected.antt =====
-- From a job to what the client gets, for a request that the checks reject.
use ttracker.Base.{
  ℕ, ◌+◌, ◌^◌, ◌<◌, ◌≤◌, ◌≡◌, refl, sym, ap, subst, ◌∙◌, Option, some, List, [], ◌++◌, Bytes,
  length, arith,
}
use ttracker.Base.Int.{ℤ}
use ttracker.Base.Decimal.{digits}
use ttracker.Memory.{Object, cells}
use ttracker.Memory.Printf.{length-cells}
use ttracker.Buffer.{Buffer}
use ttracker.Buffer.Contents.{Holds}
use ttracker.Bencode.{print}
use ttracker.Entry.{TorrentList}
use ttracker.Failure.Replies.{failure_value}
use ttracker.Build.{KeyVal, build_peer_req}
use ttracker.Request.{PeerReq, SanitizeError, rejected, sanitize_peer_req}
use ttracker.Query.{announce}
use ttracker.Announce.{error_message}
use ttracker.Announce.Handler.{handle_announce-rejected}
use ttracker.Response.{Delivery, handle_write}
use ttracker.Response.Head.{head_text}
use ttracker.Response.Sending.{IsWrite}
use ttracker.Response.Delivered.{Outcome, filled, http_response_lem}
use ttracker.Job.{request, process_job, handle_job}

abbrev pub refusal : SanitizeError → Bytes
refusal e = print (failure_value (error_message e))

refusal_short : (e : SanitizeError) → length (refusal e) ≤ 100
unfolding print failure_value error_message digits
refusal_short SanitizeError.info_hash = omega arith
refusal_short SanitizeError.peer_id = omega arith
refusal_short SanitizeError.port = omega arith
refusal_short SanitizeError.downloaded = omega arith
refusal_short SanitizeError.uploaded = omega arith
refusal_short SanitizeError.left = omega arith
refusal_short SanitizeError.event = omega arith

-- An announce whose request is built and then rejected by the checks is answered, whatever the
-- torrents are: with two empty buffers from the pool, of sizes inside an int, the one for the answer
-- below a thousand million, and a `write` as documented, the client is sent a response with 200 and
-- the bencoded failure for the error, with the outcome of any response, and the torrents stay as
-- they are.
pub handle_job-rejected :
    (db : Bytes → ℤ) (unescape : Bytes → Option Bytes) (scan : Object → Option ℕ) (ip : Bytes)
    (addr : ℕ) (write : ℕ → ℕ → Option ℕ) (list : List KeyVal) (req : PeerReq) (e : SanitizeError)
    (tl : TorrentList) (c out : Buffer)
    → build_peer_req unescape list ≡ some req
    → sanitize_peer_req req ≡ some (rejected e)
    → IsWrite write
    → Holds [] c
    → Holds [] out
    → c.size + 2000 < 2 ^ 31
    → out.size < 10 ^ 9
    → (d : Delivery) × (handle_job db unescape scan ip addr write c (request announce list) tl out
        ≡ some (some d, tl))
      × Outcome write (cells (head_text 200 (length (refusal e))) ++ cells (refusal e)) d
unfolding handle_job process_job handle_write
handle_job-rejected db unescape scan ip addr write list req e tl c out built s ok hc ho k l =
    let (out', r, h) =
      handle_announce-rejected db req e ip addr tl out s (ho.valid, omega (arith, l)) in
    let text = h.held ∙ ap (λ m. m ++ cells (refusal e)) ho.held in
    let n : out'.cursor ≡ length (refusal e) =
      sym (filled out' _ h) ∙ ap (λ m. length m) (sym h.held ∙ text) ∙ length-cells (refusal e) in
    let (d, c', t, _, o) =
      http_response_lem write c out' 200 ok hc h.valid (omega (arith, k, n, refusal_short e)) in
    (
      d,
      rw (built, r, t) refl,
      subst (λ m. Outcome write m d)
          (ap (λ m. cells (head_text 200 out'.cursor) ++ m) text
            ∙ ap (λ n. cells (head_text 200 n) ++ cells (refusal e)) n)
          o,
    )
