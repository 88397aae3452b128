-- ===== src/Build.antt =====
-- http.c: `http_build_peer_req`, from the keys and values of a query. Unescaping is done by curl and
-- is a parameter: `unescape` gives the bytes, or none where curl gives NULL. atoi is that of
-- <stdlib.h>; what does not fit an int is undefined.
pub mod Hash
use ttracker.Base.{
  ℕ, suc, ◌+◌, ◌*◌, ◌-◌, ◌/◌, ◌%◌, Bool, true, false, ◌||◌, ◌&&◌, Option, none, some, List, [], ◌∷◌,
  Bytes, codes, ltb, leb, ◌==◌, if◌then◌else◌, ◌>>=◌, length, take, replicate, bytes_eq,
}
use ttracker.Base.Int.{ℤ, pos, negsuc, int_max, u64_of_int}
use ttracker.Base.Decimal.{is_digit}
use ttracker.Memory.{Object, sprintf}
use ttracker.Request.{PeerReq}

-- `struct http_uri_kv`
pub record KeyVal : Type 0 where
  pub key : Bytes
  pub val : Bytes

unfoldable pub lookup_kv_key : List KeyVal → Bytes → Option KeyVal
lookup_kv_key [] key = none
lookup_kv_key (np ∷ list) key = if bytes_eq np.key key then some np else lookup_kv_key list key

abbrev pub hex_digit : ℕ → ℕ
hex_digit n = if ltb n 10 then 48 + n else 87 + n

-- `%02x` of an unsigned char.
abbrev pub hex_byte : ℕ → Bytes
hex_byte c = hex_digit (c / 16) ∷ hex_digit (c % 16) ∷ []

-- The loop of `url_decode`, on what is left of the decoded bytes.
unfoldable pub print_hex : Bytes → ℕ → Object → Option Object
print_hex [] off out = some out
print_hex (c ∷ decoded) off out =
    sprintf out off (hex_byte c) >>= λ r. print_hex decoded (off + 2) r.0

unfoldable pub url_decode : (Bytes → Option Bytes) → Object → Bytes → Option Object
url_decode unescape out in_text = elim (unescape in_text) [
  | none ↦ some out
  | some decoded ↦ if ltb (length decoded) 20 then some out else print_hex (take 20 decoded) 0 out
]

-- strcpy into a cleared array of `size` chars.
abbrev pub strcpy_into : ℕ → Bytes → Option Bytes
strcpy_into size s = if ltb (length s) size then some s else none

-- The number that the digits in front make.
unfoldable pub leading_digits : ℕ → Bytes → ℕ
leading_digits n [] = n
leading_digits n (c ∷ s) =
    let rest = leading_digits (n * 10 + (c - 48)) s in if is_digit c then rest else n

abbrev pub negated : ℕ → ℤ
negated ℕ.zero = pos 0
negated (suc n) = negsuc n

-- The text behind the white space, with its sign.
unfoldable pub atoi_signed : Bytes → Option ℤ
atoi_signed [] = some (pos 0)
atoi_signed (c ∷ s) =
    if c == 45
    then (if leb (leading_digits 0 s) (int_max + 1)
        then some (negated (leading_digits 0 s))
        else none)
    else (let n = leading_digits 0 (if c == 43 then s else c ∷ s) in
        if leb n int_max then some (pos n) else none)

unfoldable pub atoi : Bytes → Option ℤ
atoi [] = some (pos 0)
atoi (c ∷ s) =
    let rest = atoi s in if c == 32 || (leb 9 c && leb c 13) then rest else atoi_signed (c ∷ s)

abbrev atoi_of : List KeyVal → Bytes → Option ℤ
atoi_of list key = lookup_kv_key list key >>= λ np. atoi np.val

-- A key that is not found is a NULL pointer that is read through, but for `event`.
unfoldable pub build_peer_req : (Bytes → Option Bytes) → List KeyVal → Option PeerReq
build_peer_req unescape list = do
  hash ← lookup_kv_key list (codes "info_hash")
  decoded ← url_decode unescape (replicate 257 (some 0)) hash.val
  id ← lookup_kv_key list (codes "peer_id")
  peer_id ← strcpy_into 65 id.val
  port ← atoi_of list (codes "port")
  downloaded ← atoi_of list (codes "downloaded")
  uploaded ← atoi_of list (codes "uploaded")
  left ← atoi_of list (codes "left")
  event ← elim (lookup_kv_key list (codes "event")) as (λ _. Option Bytes) [
    | none ↦ some (codes "count")
    | some np ↦ strcpy_into 33 np.val
  ]
  some (record {
    downloaded = u64_of_int downloaded;
    uploaded = u64_of_int uploaded;
    left = u64_of_int left;
    peer_id = peer_id;
    info_hash = decoded;
    event = event;
    port = port;
  })
