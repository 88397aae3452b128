-- ===== src/Request.antt =====
-- http.c and torrent.h: `struct peer_req` and `sanitize_peer_req`. `<ctype.h>` is that of ASCII, as
-- in the C locale.
pub mod Clean
use ttracker.Base.{
  ℕ, zero, suc, ◌^◌, ◌-◌, Bool, true, false, ◌&&◌, Option, none, some, List, [], ◌∷◌, Bytes, codes,
  ltb, leb, if◌then◌else◌, bytes_eq,
}
use mathlib.Core.Bool.{◌||◌, not}
use ttracker.Base.Int.{ℤ, pos, leb_ℤ}
use ttracker.Memory.{Object}

-- `struct peer_req`, without the fields that are only cleared. The two arrays that hold strings are
-- given as those strings.
pub record PeerReq : Type 0 where
  pub downloaded : ℕ  -- unsigned long long
  pub uploaded : ℕ
  pub left : ℕ
  pub peer_id : Bytes
  pub info_hash : Object  -- 257 chars
  pub event : Bytes
  pub port : ℤ  -- int

-- E_INFO_HASH to E_EVENT
pub data SanitizeError : Type 0 where
  info_hash peer_id port downloaded uploaded left event : SanitizeError

pub data Verdict : Type 0 where
  accepted : Verdict
  rejected : SanitizeError → Verdict

abbrev between : ℕ → ℕ → ℕ → Bool
between low high c = leb low c && leb c high

abbrev pub isxdigit : ℕ → Bool
isxdigit c = between 48 57 c || (between 65 70 c || between 97 102 c)

abbrev pub isgraph : ℕ → Bool
isgraph c = between 33 126 c

-- The first `info_len` chars are read until one is no hexadecimal digit; `none` where one of those
-- was not written, and `false` for -1.
unfoldable pub sanitize_info_hash : Object → ℕ → Option Bool
sanitize_info_hash m zero = some true
sanitize_info_hash [] (suc n) = none
sanitize_info_hash (none ∷ m) (suc n) = none
sanitize_info_hash (some c ∷ m) (suc n) =
    let rest = sanitize_info_hash m n in if isxdigit c then rest else some false

unfoldable pub all_graph : Bytes → Bool
all_graph [] = true
all_graph (c ∷ s) = isgraph c && all_graph s

-- `value < 0 || value >= ULLONG_MAX`; no value of the type is below 0.
abbrev pub overflows : ℕ → Bool
overflows value = ltb value 0 || leb (2 ^ 64 - 1) value

unfoldable pub known_event : Bytes → Bool
known_event e =
    bytes_eq e (codes "count")
    || (bytes_eq e (codes "start") || (bytes_eq e (codes "stop") || bytes_eq e (codes "complete")))

-- The checks behind that of the hash, in order.
unfoldable pub sanitize_fields : PeerReq → Verdict
sanitize_fields ctx =
    if not (all_graph ctx.peer_id)
    then rejected peer_id
    else if not (leb_ℤ (pos 1024) ctx.port) || not (leb_ℤ ctx.port (pos 65535))
    then rejected port
    else if overflows ctx.downloaded
    then rejected downloaded
    else if overflows ctx.uploaded
    then rejected uploaded
    else if overflows ctx.left
    then rejected left
    else if not (known_event ctx.event)
    then rejected event
    else accepted

unfoldable pub sanitize_peer_req : PeerReq → Option Verdict
sanitize_peer_req ctx = elim (sanitize_info_hash ctx.info_hash 40) [
  | none ↦ none
  | some hex ↦ some (if hex then sanitize_fields ctx else rejected info_hash)
]
