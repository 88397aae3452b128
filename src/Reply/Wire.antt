-- ===== src/Reply/Wire.antt =====
-- The reply to an announce, where it has room: the bencoding of the counters and the peers.
use ttracker.Base.{
  ℕ, zero, suc, ◌+◌, ◌-◌, ◌≤◌, ◌<◌, ◌≡◌, ◌≢◌, refl, sym, ap, ap₂, subst, inl, inr, Bool-cases,
  leb→le, Option, some, List, [], ◌∷◌, ◌++◌, Bytes, codes, arith, length, take, leb, length-append,
  append_assoc, append-nil, ◌>>=◌,
}
use ttracker.Base.Int.{pos, pos--ℤ-pos}
use ttracker.Base.Decimal.{digits}
use ttracker.Memory.{Object, cells}
use ttracker.Memory.Printf.{snprintf_behind, rest_after, rest_after-append, length-rest_after}
use ttracker.Bencode.{
  Value, Values, int, bytestring, list, dict, nil, cons, end, pair, print, print_values, IsKnown,
  AreKnown,
}
use ttracker.Bencode.Roundtrip.{Encodes, print-Encodes}
use ttracker.Entry.{Peer, Torrent}
use ttracker.Reply.{
  max_numwant, header_text, peer_text, print_at, print_peers, print_reply, bencode_torrent,
}

-- What a client is to read: the counters, the interval, and at most T_MAX_NUMWANT peers.
abbrev pub peer_value : Peer → Value
peer_value p = dict (
    pair (codes "port") (int p.port)
      (pair (codes "peer_id") (bytestring p.peer_id) (pair (codes "ip") (bytestring p.ip) end)))

abbrev pub peer_values : List Peer → Values
peer_values [] = nil
peer_values (p ∷ ps) = cons (peer_value p) (peer_values ps)

abbrev pub listed : Torrent → List Peer
listed t = take max_numwant t.peers

abbrev pub reply_value : Torrent → Value
reply_value t = dict (
    pair (codes "complete") (int t.seeders) (
      pair (codes "incomplete") (int t.leechers) (
        pair (codes "interval") (int (pos 30))
          (pair (codes "peers") (list (peer_values (listed t))) end))))

abbrev pub peers_text : List Peer → Bytes
peers_text [] = []
peers_text (p ∷ ps) = peer_text p ++ peers_text ps

-- The formats spell the bencoding.
peer_text-print : (p : Peer) → print (peer_value p) ≡ peer_text p
unfolding print digits
peer_text-print p = simp append_assoc

peers_text-print : (ps : List Peer) → print_values (peer_values ps) ≡ peers_text ps
unfolding print
peers_text-print [] = refl
peers_text-print (p ∷ ps) = ap₂ (λ s t. s ++ t) (peer_text-print p) (peers_text-print ps)

abbrev pub reply_text : Torrent → Bytes
reply_text t = header_text t ++ (peers_text (listed t) ++ codes "ee")

pub reply_text-print : (t : Torrent) → print (reply_value t) ≡ reply_text t
unfolding print digits
reply_text-print t = rw (peers_text-print (listed t)) (simp append_assoc)

-- A piece printed behind the text so far.
pub print_at-behind :
    (s t : Bytes) (r : Object) (n : ℕ)
    → t ≢ []
    → length s + length t < n
    → length t < length r
    → print_at t (pos n) (cells s ++ r, length s)
      ≡ some (cells (s ++ t) ++ rest_after t r, length (s ++ t))
print_at-behind s t r n h k room =
    rw
      (
        pos--ℤ-pos n (length s) (omega arith),
        snprintf_behind s t r (n - length s) h (omega arith) room,
      )
      (ap (λ l. some (cells (s ++ t) ++ rest_after t r, l)) (sym (length-append s t)))

abbrev Printed : Bytes → Bytes → Object → Option (Object × ℕ) → Type 0
Printed s t r q = q ≡ some (cells (s ++ t) ++ rest_after t r, length (s ++ t))

nothing-Printed : (s : Bytes) (r : Object) → Printed s [] r (some (cells s ++ r, length s))
nothing-Printed s r = ap (λ u. some (cells u ++ r, length u)) (sym (append-nil s))

then-Printed :
    (s t u : Bytes) (r : Object) (q : Option (Object × ℕ)) (g : Object × ℕ → Option (Object × ℕ))
    → Printed s t r q
    → Printed (s ++ t) u (rest_after t r) (g (cells (s ++ t) ++ rest_after t r, length (s ++ t)))
    → Printed s (t ++ u) r (q >>= g)
then-Printed s t u r q g e f =
    rw (e, f)
      (ap₂ (λ v w. some (cells v ++ w, length v)) (append_assoc s t u) (rest_after-append t u r))

-- The peers that the loop prints from its `i` on.
abbrev from_round : ℕ → List Peer → List Peer
from_round i ps = take (max_numwant - i) ps

from_round-nil : (i : ℕ) → from_round i [] ≡ []
from_round-nil i = take-nil (max_numwant - i)
  where
    take-nil : (n : ℕ) → take {A = Peer} n [] ≡ []
    take-nil zero = refl
    take-nil (suc n) = refl

from_round_late : (i : ℕ) (ps : List Peer) → max_numwant ≤ i → from_round i ps ≡ []
from_round_late i ps h = let e : max_numwant - i ≡ zero = omega arith in ap (λ k. take k ps) e

from_round-cons :
    (i : ℕ) (p : Peer) (ps : List Peer)
    → i < max_numwant
    → from_round i (p ∷ ps) ≡ p ∷ from_round (i + 1) ps
from_round-cons i p ps h =
    let e : max_numwant - i ≡ suc (max_numwant - (i + 1)) = omega arith in
    ap (λ k. take k (p ∷ ps)) e

-- The loop prints the peers that are left of the first T_MAX_NUMWANT.
print_peers-Printed :
    (ps : List Peer) (i n : ℕ) (s : Bytes) (r : Object)
    → length s + length (peers_text (from_round i ps)) < n
    → length (peers_text (from_round i ps)) < length r
    → Printed s (peers_text (from_round i ps)) r (print_peers ps i (pos n) (cells s ++ r, length s))
unfolding print_peers
print_peers-Printed [] i n s r k room =
    subst (λ qs. Printed s (peers_text qs) r (some (cells s ++ r, length s)))
      (sym (from_round-nil i)) (nothing-Printed s r)
print_peers-Printed (p ∷ ps) i n s r k room = elim (Bool-cases (leb max_numwant i)) [
  | inl late ↦
      rw (late, from_round_late i (p ∷ ps) (leb→le max_numwant i late)) (nothing-Printed s r)
  | inr early ↦
      let e = from_round-cons i p ps (ground arith) in
      let l = length-append (peer_text p) (peers_text (from_round (i + 1) ps)) in
      let m = ap (λ qs. length (peers_text qs)) e in
      let left = length-rest_after (peer_text p) r (omega (arith, l, m)) in
      let f = length-append s (peer_text p) in
      rw (early, e)
        (then-Printed s (peer_text p) (peers_text (from_round (i + 1) ps)) r
          (print_at (peer_text p) (pos n) (cells s ++ r, length s)) (print_peers ps (i + 1) (pos n))
          (print_at-behind s (peer_text p) r n (λ x. cc) (omega (arith, l, m))
            (omega (arith, l, m)))
          (print_peers-Printed ps (i + 1) n (s ++ peer_text p) (rest_after (peer_text p) r)
            (omega (arith, l, m, f)) (omega (arith, l, m, left))))
]

print_reply-Printed :
    (t : Torrent) (out : Object) (n : ℕ)
    → length (reply_text t) < n
    → length (reply_text t) < length out
    → Printed [] (reply_text t) out (print_reply t out (pos n))
unfolding print_reply
print_reply-Printed t out n k room =
    then-Printed [] header (peers ++ codes "ee") out (print_at header (pos n) (out, 0))
      (λ r. print_peers t.peers 0 (pos n) r >>= λ q. print_at (codes "ee") (pos n) q)
      (print_at-behind [] header out n (λ x. cc) (omega (arith, all)) (omega (arith, all)))
      (then-Printed header peers (codes "ee") r1
        (print_peers t.peers 0 (pos n) (cells header ++ r1, length header))
        (λ q. print_at (codes "ee") (pos n) q)
        (print_peers-Printed t.peers 0 n header r1 (omega (arith, all)) (omega (arith, all, left1)))
        (print_at-behind (header ++ peers) (codes "ee") (rest_after peers r1) n (λ x. cc)
          (omega (arith, all, length-append header peers))
          (omega (arith, all, left1, length-rest_after peers r1 (omega (arith, all, left1))))))
  where
    header : Bytes
    header = header_text t

    peers : Bytes
    peers = peers_text (from_round 0 t.peers)

    all : length (reply_text t) ≡ length header + (length peers + 2)
    all =
        omega (arith, length-append header (peers ++ codes "ee"), length-append peers (codes "ee"))

    r1 : Object
    r1 = rest_after header out

    left1 : length r1 ≡ length out - length header
    left1 = length-rest_after header out (omega (arith, all))

peer_values-known : (ps : List Peer) → AreKnown (peer_values ps)
unfolding IsKnown
peer_values-known [] = tt
peer_values-known (p ∷ ps) = ((tt, (tt, (tt, tt))), peer_values-known ps)

-- In an array with room for the whole reply, and told of that room, `torrent_bencode_torrent` writes
-- at its start a text that the reader takes for the dictionary of the counters, the interval and
-- the first T_MAX_NUMWANT peers, each with its port, its id and its address, and nothing more.
pub bencode_torrent_lem :
    (t : Torrent) (out : Object) (n : ℕ)
    → length (print (reply_value t)) < n
    → length (print (reply_value t)) < length out
    → (bencode_torrent t out (pos n)
        ≡ some (cells (print (reply_value t)) ++ rest_after (print (reply_value t)) out))
      × Encodes (print (reply_value t)) (reply_value t)
unfolding bencode_torrent
bencode_torrent_lem t out n k room = (rw printed e, print-Encodes (reply_value t) known)
  where
    text : print (reply_value t) ≡ reply_text t
    text = reply_text-print t

    printed :
        print_reply t out (pos n)
        ≡ some (cells (reply_text t) ++ rest_after (reply_text t) out, length (reply_text t))
    printed =
        print_reply-Printed t out n (subst (λ u. length u < n) text k)
          (subst (λ u. length u < length out) text room)

    e :
        some (cells (reply_text t) ++ rest_after (reply_text t) out)
        ≡ some (cells (print (reply_value t)) ++ rest_after (print (reply_value t)) out)
    e = ap (λ u. some (cells u ++ rest_after u out)) (sym text)

    known : IsKnown (reply_value t)
    known = unfold IsKnown in (tt, (tt, (tt, (peer_values-known (listed t), tt))))
