-- ===== src/Response.antt =====
-- http.c: `http_response`, `http_error` and `http_handle_write`. The calls of `write` are a
-- parameter: `write i n` is what the i-th call gives for `n` chars, `none` for -1. The buffer that a
-- function takes from the pool is an argument, with what the function leaves in it among the
-- results.
pub mod Head
pub mod Sending
pub mod Delivered
use ttracker.Base.{
  ℕ, zero, suc, ◌+◌, ◌-◌, ◌<◌, Bool, Option, none, some, List, [], ◌∷◌, ◌++◌, Bytes, codes, ltb,
  ◌==◌, if◌then◌else◌, ◌>>=◌, length, take, drop,
}
use ttracker.Base.Int.{ℤ, pos, negsuc}
use ttracker.Base.Decimal.{print_int}
use ttracker.Memory.{Object, read_at}
use ttracker.Buffer.{Buffer, object, append_string_to_buffer, append_to_buffer, buffer_len}

-- HTTP_200, HTTP_400 and HTTP_500
unfoldable pub status_line : ℕ → Bytes
status_line code =
    if code == 200
    then codes "HTTP/1.1 200 OK"
    else if code == 400
    then codes "HTTP/1.1 400 Bad Request"
    else codes "HTTP/1.1 500 Internal Server Error"

-- What `snprintf(closing, 64, …)` leaves before the NUL.
unfoldable pub closing : ℕ → Bytes
closing b_len = take 63 (codes "\ncontent-length: " ++ (print_int (pos b_len) ++ codes "\n"))

-- The strings that the head is made of, in the order in which they are appended.
unfoldable pub head_lines : ℕ → ℕ → List Bytes
head_lines code b_len =
    status_line code
    ∷ ((if ltb 0 b_len
          then closing b_len
            ∷ codes "content-type: text/plain\n"
            ∷ codes "server: topkek-0.1\n"
            ∷ codes "connection: close\n"
            ∷ []
          else [])
        ++ codes "\r\n" ∷ [])

unfoldable pub append_strings : Buffer → List Bytes → Option Buffer
append_strings b [] = some b
append_strings b (s ∷ ss) = append_string_to_buffer b s >>= λ r. append_strings r.0 ss

-- The head and the body, in the buffer from the pool.
unfoldable pub fill_response : Buffer → Buffer → ℕ → Option Buffer
fill_response b body code = append_strings b (head_lines code (buffer_len body)) >>= λ b1.
    append_to_buffer (some b1) (some body) >>= λ r. r.0

-- What the loop of calls of `write` returns, and what the client was given.
pub record Delivery : Type 0 where
  pub result : ℤ
  pub client : Object

-- Call `i` of `write`, after `written` chars, with `max_try` failures left. Each call reads the
-- chars from the object that `p` points to. The fuel is the number of calls.
unfoldable pub send : (ℕ → ℕ → Option ℕ) → Object → ℕ → ℕ → ℕ → ℕ → ℕ → Object → Option Delivery
send write p outsiz zero i written max_try client = none
send write p outsiz (suc f) i written max_try client =
    read_at p written (outsiz - written) >>= λ chars. elim (write i (outsiz - written)) [
      | none ↦
          let again = send write p outsiz f (i + 1) written (max_try - 1) client in
          if max_try - 1 == 0
          then some (record { result = negsuc 0; client = client })
          else if ltb written outsiz
          then again
          else some (record { result = pos written; client = client })
      | some ret ↦
          let client' = client ++ take ret chars in
          let again = send write p outsiz f (i + 1) (written + ret) max_try client' in
          if ltb (written + ret) outsiz
          then again
          else some (record { result = pos (written + ret); client = client' })
    ]

-- With the buffer that is given back.
unfoldable pub http_response : (ℕ → ℕ → Option ℕ) → Buffer → Buffer → ℕ → Option (Delivery × Buffer)
http_response write b body code = fill_response b body code >>= λ b1.
    send write (object b1) b1.cursor (b1.cursor + 5) 0 0 5 [] >>= λ d. some (d, b1)

-- `b` is the buffer of `http_error`, `c` the one of `http_response`. The result of the response is
-- not used; what was delivered is kept here beside the buffers.
unfoldable pub http_error :
    (ℕ → ℕ → Option ℕ) → Buffer → Buffer → ℕ → Option (Delivery × Buffer × Buffer)
http_error write b c code =
    append_string_to_buffer b (codes "d14:failure reason11:query errore") >>= λ r.
    http_response write c r.0 code >>= λ d. some (d.0, r.0, d.1)

-- The answer to a job goes out with 200.
unfoldable pub handle_write : (ℕ → ℕ → Option ℕ) → Buffer → Buffer → Option (Delivery × Buffer)
handle_write write b out = http_response write b out 200
