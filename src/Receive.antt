-- ===== src/Receive.antt =====
-- http.c: `http_handle_read`. What `read` gives is an argument, `none` for -1. The buffers from the
-- pool that `http_error` and its response use are arguments too. The arrays and lists that it frees
-- on the way carry nothing on.
pub mod Any
use ttracker.Base.{ℕ, Bool, Option, none, some, List, Bytes, ltb, if◌then◌else◌, ◌>>=◌, length}
use ttracker.Buffer.{Buffer, zero_buffer, append_string_to_buffer}
use ttracker.Build.{KeyVal}
use ttracker.Query.{JobType, up_to_nul, parse_job, parse_query}
use ttracker.Response.{Delivery, http_error}

-- HTTP_MAX_REQ_SIZE
abbrev pub max_req_size : ℕ
max_req_size = 2048

-- A return of -1 with nothing sent, a return of -1 behind an answer, and a job for the queue.
pub data Received : Type 0 where
  refused : Received
  answered : Delivery → Received
  enqueued : JobType → List KeyVal → Received

-- The request as a string: `uri` was cleared before.
unfoldable pub handle_request :
    (ℕ → ℕ → Option ℕ) → Bytes → Buffer → Buffer → Buffer → Option (Received × Buffer)
handle_request write uri b e c = append_string_to_buffer b uri >>= λ r. parse_job r.0 >>= λ job_t.
    elim job_t [
      | none ↦ some (refused, r.0)
      | some job ↦ parse_query r.0 job >>= λ q. elim (q.1) [
        | none ↦ http_error write e c 400 >>= λ d. some (answered d.0, q.0)
        | some list ↦ some (enqueued job list, zero_buffer q.0)
      ]
    ]

-- `b` is the buffer of the caller, `e` that of `http_error`, and `c` that of its response.
unfoldable pub handle_read :
    (ℕ → ℕ → Option ℕ) → Option Bytes → Buffer → Buffer → Buffer → Option (Received × Buffer)
handle_read write none b e c = some (refused, b)
handle_read write (some uri) b e c =
    let request = handle_request write (up_to_nul uri) b e c in
    if ltb (length uri) 5 then some (refused, b) else request
