-- ===== src/Reply.antt =====
-- torrent.c: `torrent_bencode_torrent`, which prints the reply to an announce, and the array that
-- its callers allocate for it.
pub mod Wire
pub mod Room
pub mod Overflow
use ttracker.Base.{
  ℕ, suc, ◌+◌, ◌*◌, ◌≡◌, refl, Option, none, some, List, [], ◌∷◌, ◌++◌, Bytes, codes, leb,
  if◌then◌else◌, ◌>>=◌, length, replicate,
}
use ttracker.Base.Int.{ℤ, pos, negsuc, ◌-ℤ◌, u64_of_int}
use ttracker.Base.Decimal.{print_int, digits}
use ttracker.Memory.{Object, snprintf}
use ttracker.Entry.{Peer, Torrent}

-- T_MAX_NUMWANT
abbrev pub max_numwant : ℕ
max_numwant = 80

-- What the format of the first snprintf makes.
abbrev pub header_text : Torrent → Bytes
header_text t =
    codes "d8:completei"
    ++ (print_int t.seeders
        ++ (codes "e10:incompletei"
            ++ (print_int t.leechers
                ++ (codes "e8:intervali" ++ (print_int (pos 30) ++ codes "e5:peersl")))))

-- What the format in the loop makes.
abbrev pub peer_text : Peer → Bytes
peer_text p =
    codes "d4:porti"
    ++ (print_int p.port
        ++ (codes "e7:peer_id"
            ++ (digits (length p.peer_id)
                ++ (codes ":"
                    ++ (p.peer_id
                        ++ (codes "2:ip"
                            ++ (digits (length p.ip) ++ (codes ":" ++ (p.ip ++ codes "e")))))))))

-- `snprintf(p+written, out_size - written, …)`; what it returns is added to `written`.
abbrev pub print_at : Bytes → ℤ → Object × ℕ → Option (Object × ℕ)
print_at text out_size (m, written) =
    snprintf m written (u64_of_int (out_size -ℤ pos written)) text >>= λ r.
    some (r.0, written + r.1)

-- The loop, from its `i`.
unfoldable pub print_peers : List Peer → ℕ → ℤ → Object × ℕ → Option (Object × ℕ)
print_peers [] i out_size r = some r
print_peers (pt ∷ ps) i out_size r =
    if leb max_numwant i
    then some r
    else (print_at (peer_text pt) out_size r >>= λ q. print_peers ps (i + 1) out_size q)

-- The header, the peers, and the end of the list and the dictionary.
unfoldable pub print_reply : Torrent → Object → ℤ → Option (Object × ℕ)
print_reply t out out_size = print_at (header_text t) out_size (out, 0) >>= λ r.
    print_peers t.peers 0 out_size r >>= λ q. print_at (codes "ee") out_size q

unfoldable pub bencode_torrent : Torrent → Object → ℤ → Option Object
bencode_torrent t out out_size = print_reply t out out_size >>= λ r. some r.0

-- `calloc(128 * peer_count, sizeof(char))`, and the assertion that it gave an array.
abbrev pub calloc_reply : ℤ → Option Object
calloc_reply (pos n) = some (replicate (128 * n) (some 0))
calloc_reply (negsuc n) = none

abbrev pub reply_size : ℤ → ℤ
reply_size (pos n) = pos (128 * n)
reply_size (negsuc n) = negsuc (128 * n + 127)

-- The end of both callers: the list of the peers in a fresh array.
pub list_peers : Torrent → Option Object
list_peers t = calloc_reply t.peer_count >>= λ out. bencode_torrent t out (reply_size t.peer_count)
