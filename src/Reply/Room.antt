-- ===== src/Reply/Room.antt =====
-- The room for a reply: 128 chars for each peer.
use ttracker.Base.{
  ℕ, zero, suc, ◌+◌, ◌*◌, ◌≤◌, ◌<◌, ◌≡◌, ◌≢◌, refl, sym, ap, subst, ◌∙◌, Option, some, List, [],
  ◌∷◌, ◌++◌, Bytes, All, codes, arith, length, take, drop, length-append, length-take, ◌>>=◌,
  replicate, length-replicate,
}
use ttracker.Base.Int.{ℤ, pos, negsuc}
use ttracker.Base.Decimal.{print_int, digits, length-digits-le, pow10}
use ttracker.Memory.{Object, Cell, cells}
use ttracker.Memory.Printf.{rest_after, rest_after_nonempty}
use ttracker.Bencode.{print}
use ttracker.Bencode.Roundtrip.{Encodes}
use ttracker.Entry.{Peer, Torrent}
use ttracker.Reply.{
  max_numwant, header_text, peer_text, bencode_torrent, list_peers, calloc_reply, reply_size,
}
use ttracker.Reply.Wire.{
  reply_value, reply_text, reply_text-print, peers_text, listed, bencode_torrent_lem,
}

abbrev pub IsBelow : ℕ → ℤ → Type 0
IsBelow n (pos k) = k < n
IsBelow n (negsuc k) = ⊥

-- A peer as the protocol has it: an id of at most 20 bytes, a dotted IPv4 address and a port.
pub record IsSmall (p : Peer) : Type 0 where
  pub short_id : length p.peer_id ≤ 20
  pub dotted : length p.ip ≤ 15
  pub port : IsBelow 65536 p.port

pub length-peer_text :
    (p : Peer)
    → length (peer_text p)
      ≡ 25
        + length (print_int p.port)
        + length (digits (length p.peer_id))
        + length p.peer_id
        + length (digits (length p.ip))
        + length p.ip
length-peer_text p = omega (
  arith,
  length-append (print_int p.port) (
      codes "e7:peer_id"
      ++ (digits (length p.peer_id)
          ++ (codes ":"
              ++ (p.peer_id
                  ++ (codes "2:ip"
                      ++ (digits (length p.ip) ++ (codes ":" ++ (p.ip ++ codes "e")))))))),
  length-append (digits (length p.peer_id)) (
      codes ":"
      ++ (p.peer_id
          ++ (codes "2:ip" ++ (digits (length p.ip) ++ (codes ":" ++ (p.ip ++ codes "e")))))),
  length-append p.peer_id
      (codes "2:ip" ++ (digits (length p.ip) ++ (codes ":" ++ (p.ip ++ codes "e")))),
  length-append (digits (length p.ip)) (codes ":" ++ (p.ip ++ codes "e")),
  length-append p.ip (codes "e"),
)

pub length-print_int-le : (v : ℤ) (k : ℕ) → IsBelow (pow10 (suc k)) v → length (print_int v) ≤ suc k
unfolding print_int
length-print_int-le (pos m) k h = length-digits-le m k h
length-print_int-le (negsuc m) k h = absurd h

pub IsBelow-le : (v : ℤ) {a b : ℕ} → a ≤ b → IsBelow a v → IsBelow b v
IsBelow-le (pos m) h k = omega arith
IsBelow-le (negsuc m) h k = absurd k

length-peer_text-le : (p : Peer) → IsSmall p → length (peer_text p) ≤ 69
length-peer_text-le p v = omega (
  arith,
  length-peer_text p,
  v.short_id,
  v.dotted,
  length-print_int-le p.port 4 (IsBelow-le p.port (omega arith) v.port),
  length-digits-le (length p.peer_id) 1 (omega (arith, v.short_id)),
  length-digits-le (length p.ip) 1 (omega (arith, v.dotted)),
)

length-peers_text-le : (ps : List Peer) → All IsSmall ps → length (peers_text ps) ≤ 69 * length ps
length-peers_text-le [] v = omega arith
length-peers_text-le (p ∷ ps) v = omega (
  arith,
  length-append (peer_text p) (peers_text ps),
  length-peer_text-le p v.0,
  length-peers_text-le ps v.1,
)

All-take {ℓ κ} : {A : Type ℓ} (P : A → Type κ) (n : ℕ) (xs : List A) → All P xs → All P (take n xs)
All-take P zero xs h = tt
All-take P (suc n) [] h = tt
All-take P (suc n) (x ∷ xs) h = (h.0, All-take P n xs h.1)

thirty : length (print_int (pos 30)) ≡ 2
unfolding print_int digits
thirty = refl

pub length-header_text :
    (t : Torrent)
    → length (header_text t) ≡ 50 + length (print_int t.seeders) + length (print_int t.leechers)
length-header_text t = omega (
  arith,
  length-append (print_int t.seeders) (
      codes "e10:incompletei"
      ++ (print_int t.leechers
          ++ (codes "e8:intervali" ++ (print_int (pos 30) ++ codes "e5:peersl")))),
  length-append (print_int t.leechers)
      (codes "e8:intervali" ++ (print_int (pos 30) ++ codes "e5:peersl")),
  length-append (print_int (pos 30)) (codes "e5:peersl"),
  thirty,
)

-- A torrent whose counters have at most three digits, and whose peers are as the protocol has them.
pub record IsModest (t : Torrent) : Type 0 where
  pub counted : t.peer_count ≡ pos (length t.peers)
  pub some_peer : 0 < length t.peers
  pub seeders : IsBelow 1000 t.seeders
  pub leechers : IsBelow 1000 t.leechers
  pub peers : All IsSmall t.peers

pub length-reply_text-lt : (t : Torrent) → IsModest t → length (reply_text t) < 128 * length t.peers
length-reply_text-lt t v = omega (
  arith,
  length-append (header_text t) (peers_text (listed t) ++ codes "ee"),
  length-append (peers_text (listed t)) (codes "ee"),
  length-header_text t,
  length-print_int-le t.seeders 2 v.seeders,
  length-print_int-le t.leechers 2 v.leechers,
  length-peers_text-le (listed t) (All-take IsSmall max_numwant t.peers v.peers),
  length-take max_numwant t.peers,
  v.some_peer,
)

pub list_peers_lem :
    (t : Torrent)
    → IsModest t
    → (rest : Object) × (list_peers t ≡ some (cells (print (reply_value t)) ++ some 0 ∷ rest))
      × Encodes (print (reply_value t)) (reply_value t)
unfolding list_peers
list_peers_lem t v = (
  drop (length text + 1) zeros,
  ap of_count v.counted ∙ printed.0 ∙ ap some_text behind,
  printed.1,
)
  where
    text : Bytes
    text = print (reply_value t)

    zeros : Object
    zeros = replicate (128 * length t.peers) (some 0)

    of_count : ℤ → Option Object
    of_count c = calloc_reply c >>= λ out. bencode_torrent t out (reply_size c)

    some_text : Object → Option Object
    some_text r = some (cells text ++ r)

    fits : length text < 128 * length t.peers
    fits =
        subst (λ u. length u < 128 * length t.peers) (sym (reply_text-print t))
          (length-reply_text-lt t v)

    zeros_fit : length text < length zeros
    zeros_fit = omega (arith, fits, length-replicate {0} {A = Cell} (128 * length t.peers) (some 0))

    printed :
        (bencode_torrent t zeros (pos (128 * length t.peers))
          ≡ some (cells text ++ rest_after text zeros))
        × Encodes text (reply_value t)
    printed = bencode_torrent_lem t zeros (128 * length t.peers) fits zeros_fit

    behind : rest_after text zeros ≡ some 0 ∷ drop (length text + 1) zeros
    behind =
        rest_after_nonempty text zeros (subst (λ u. u ≢ []) (sym (reply_text-print t)) (λ x. cc))
