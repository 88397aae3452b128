-- ===== src/Failure.antt =====
-- torrent.c: `torrent_msg_failure_generic` and `torrent_msg_failure_missing_hash`, the replies to a
-- request that is refused. What the appends return is ignored.
pub mod Replies
use ttracker.Base.{
  ℕ, ◌+◌, Option, none, some, List, [], ◌∷◌, ◌++◌, Bytes, codes, ◌>>=◌, length, replicate,
}
use ttracker.Base.Int.{pos}
use ttracker.Base.Decimal.{digits}
use ttracker.Memory.{Object, snprintf, c_string}
use ttracker.Buffer.{Buffer, append_string_to_buffer}

unfoldable pub append : Bytes → Buffer → Option Buffer
append s b = append_string_to_buffer b s >>= λ r. some r.0

-- `xmalloc(error_len+8)` and what snprintf prints there; `error_len` is the length of `error` at
-- every call.
unfoldable pub error_text : Bytes → Option Object
error_text error =
    snprintf (replicate (length error + 8) none) 0 (length error + 8)
      (digits (length error) ++ (codes ":" ++ error))
    >>= λ r. some r.0

unfoldable pub msg_failure_generic : Buffer → Bytes → Option Buffer
msg_failure_generic b error = error_text error >>= λ errorstr.
    append (codes "d14:failure reason") b >>= λ b1.
    c_string errorstr >>= λ s. append s b1 >>= λ b2. append (codes "e") b2

unfoldable pub msg_failure_missing_hash : Buffer → Option Buffer
msg_failure_missing_hash b =
    append (codes "d14:failure reason29:Missing \"info_hash\" parametere") b
