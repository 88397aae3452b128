-- ===== src/Reply/Overflow.antt =====
-- A reply that is longer than its array.
use ttracker.Base.{
  ℕ, ◌+◌, ◌-◌, ◌≤◌, ◌<◌, ◌≡◌, refl, ◌∙◌, none, some, List, [], ◌∷◌, Bytes, codes, arith, length,
  replicate, ◌^◌,
}
use ttracker.Base.Int.{ℤ, pos, negsuc, ◌-ℤ◌, u64_of_int, pos--ℤ-pos}
use ttracker.Base.Decimal.{print_int, digits, digits-cons}
use ttracker.Memory.{Object}
use ttracker.Memory.Printf.{snprintf_past, snprintf_inside}
use ttracker.Entry.{Peer, Torrent}
use ttracker.Reply.{
  header_text, peer_text, print_at, print_peers, print_reply, bencode_torrent, list_peers,
}
use ttracker.Reply.Room.{IsBelow, length-header_text, length-print_int-le, length-peer_text}

print_int-nonempty : (v : ℤ) → 0 < length (print_int v)
unfolding print_int
print_int-nonempty (pos n) = let (d, s, e, h) = digits-cons n in rw e (omega arith)
print_int-nonempty (negsuc n) = omega arith

digits-nonempty : (n : ℕ) → 0 < length (digits n)
digits-nonempty n = let (d, s, e, h) = digits-cons n in rw e (omega arith)

-- In an array of 128 chars, at an offset inside it.
print_at-inside :
    (text : Bytes) (m : Object) (w : ℕ)
    → length m ≡ 128
    → w < 128
    → (m' : Object) × (print_at text (pos 128) (m, w) ≡ some (m', w + length text))
      × (length m' ≡ 128)
print_at-inside text m w e h =
    let (m', r, f) = snprintf_inside m w (128 - w) text (omega arith) (omega arith) in
    (m', rw (pos--ℤ-pos 128 w (omega arith), r), f ∙ e)

-- Past the array, where the size has wrapped around.
print_at-past :
    (m : Object) (w : ℕ)
    → length m ≡ 128
    → 128 < w
    → w < 2 ^ 32
    → print_at (codes "ee") (pos 128) (m, w) ≡ none
unfolding ◌-ℤ◌
print_at-past m w e h k =
    rw (snprintf_past m w (u64_of_int (pos 128 -ℤ pos w)) (codes "ee") (ground arith) (omega arith))

print_one :
    (ps : List Peer) (p : Peer) (n : ℤ) (r : Object × ℕ) {q : Object × ℕ}
    → ps ≡ p ∷ []
    → print_at (peer_text p) n r ≡ some q
    → print_peers ps 0 n r ≡ some q
unfolding print_peers
print_one ps p n r one h = rw (one, h)

print_reply-overflows :
    (t : Torrent) (p : Peer) (m : Object)
    → t.peers ≡ p ∷ []
    → length m ≡ 128
    → length (header_text t) < 128
    → 128 < length (header_text t) + length (peer_text p)
    → length (header_text t) + length (peer_text p) < 2 ^ 32
    → print_reply t m (pos 128) ≡ none
unfolding print_reply
print_reply-overflows t p m one e h k g =
    let (m1, r1, e1) = print_at-inside (header_text t) m 0 e (omega arith) in
    let w : 0 + length (header_text t) ≡ length (header_text t) = omega arith in
    let (m2, r2, e2) = print_at-inside (peer_text p) m1 (length (header_text t)) e1 h in
    let peers : print_peers t.peers 0 (pos 128) (m1, length (header_text t))
        ≡ some (m2, length (header_text t) + length (peer_text p)) =
      print_one t.peers p (pos 128) (m1, length (header_text t)) one r2 in
    rw (r1, w, peers, print_at-past m2 (length (header_text t) + length (peer_text p)) e2 k g)

-- A torrent with one peer whose id has 49 bytes or more: what is printed for it does not fit the 128
-- chars, the size left for the closing snprintf wraps around, and it writes past the end of the
-- array.
pub list_peers-long_id :
    (t : Torrent) (p : Peer)
    → t.peer_count ≡ pos 1
    → t.peers ≡ p ∷ []
    → IsBelow 1000 t.seeders
    → IsBelow 1000 t.leechers
    → 49 ≤ length p.peer_id
    → length (peer_text p) < 2 ^ 31
    → list_peers t ≡ none
unfolding list_peers bencode_torrent print_reply
list_peers-long_id t p count one a b long small = rw (
  count,
  print_reply-overflows t p (replicate 128 (some 0)) one refl
      (omega (
        arith,
        length-header_text t,
        length-print_int-le t.seeders 2 a,
        length-print_int-le t.leechers 2 b,
      ))
      (omega (
        arith,
        length-header_text t,
        length-peer_text p,
        print_int-nonempty t.seeders,
        print_int-nonempty t.leechers,
        print_int-nonempty p.port,
        digits-nonempty (length p.peer_id),
        digits-nonempty (length p.ip),
      ))
      (omega (
        arith,
        length-header_text t,
        length-print_int-le t.seeders 2 a,
        length-print_int-le t.leechers 2 b,
      )),
)
