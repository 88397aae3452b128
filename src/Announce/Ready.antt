-- ===== src/Announce/Ready.antt =====
-- Appending the reply to an announce.
use ttracker.Base.{
  ℕ, zero, suc, ◌<◌, ◌≤◌, ◌^◌, ◌≡◌, ◌≢◌, refl, sym, ap, subst, some, List, [], ◌∷◌, ◌++◌, All,
  All-append, Bytes, codes, arith, length, ◌>>=◌, take,
}
use ttracker.Base.Int.{pos}
use ttracker.Base.Decimal.{print_int, print_int-nonzero, digits, digits-IsDigit, digits-nonzero}
use ttracker.Memory.{cells}
use ttracker.Memory.Laws.{IsText, c_string-cells}
use ttracker.Buffer.{Buffer}
use ttracker.Buffer.Growth.{IsValid, contents}
use ttracker.Buffer.Contents.{Holds}
use ttracker.Bencode.{print}
use ttracker.Entry.{Peer, Torrent, TorrentList}
use ttracker.Reply.{header_text, peer_text, list_peers}
use ttracker.Reply.Wire.{reply_value, reply_text-print, peers_text, listed}
use ttracker.Reply.Room.{IsModest, list_peers_lem, length-reply_text-lt}
use ttracker.Torrent.{list_jobdone}
use ttracker.Failure.Replies.{append_lem}
use ttracker.Announce.{store, reply}

-- The strings of a peer have no NUL.
abbrev pub IsTextual : Peer → Type 0
IsTextual p = IsText p.peer_id × IsText p.ip

digits-IsText : (n : ℕ) → IsText (digits n)
digits-IsText n = digits-nonzero (digits n) (digits-IsDigit n)

append-IsText : (s t : Bytes) → IsText s → IsText t → IsText (s ++ t)
append-IsText s t hs ht = All-append (λ c. c ≢ 0) s t hs ht

peer_text-IsText : (p : Peer) → IsTextual p → IsText (peer_text p)
peer_text-IsText p (i, a) = append-IsText (codes "d4:porti") _ (omega arith) (
    append-IsText (print_int p.port) _ (print_int-nonzero p.port) (
      append-IsText (codes "e7:peer_id") _ (omega arith) (
        append-IsText (digits (length p.peer_id)) _ (digits-IsText (length p.peer_id)) (
          append-IsText (codes ":") _ (omega arith) (
            append-IsText p.peer_id _ i (
              append-IsText (codes "2:ip") _ (omega arith) (
                append-IsText (digits (length p.ip)) _ (digits-IsText (length p.ip)) (
                  append-IsText (codes ":") _ (omega arith)
                    (append-IsText p.ip (codes "e") a (omega arith))))))))))

header_text-IsText : (t : Torrent) → IsText (header_text t)
header_text-IsText t = append-IsText (codes "d8:completei") _ (omega arith) (
    append-IsText (print_int t.seeders) _ (print_int-nonzero t.seeders) (
      append-IsText (codes "e10:incompletei") _ (omega arith) (
        append-IsText (print_int t.leechers) _ (print_int-nonzero t.leechers) (
          append-IsText (codes "e8:intervali") _ (omega arith) (
            append-IsText (print_int (pos 30)) (codes "e5:peersl") (print_int-nonzero (pos 30))
              (omega arith))))))

peers_text-IsText : (ps : List Peer) → All IsTextual ps → IsText (peers_text ps)
peers_text-IsText [] h = tt
peers_text-IsText (p ∷ ps) h =
    append-IsText (peer_text p) (peers_text ps) (peer_text-IsText p h.0) (peers_text-IsText ps h.1)

All-take : (n : ℕ) (ps : List Peer) → All IsTextual ps → All IsTextual (take n ps)
All-take zero ps h = tt
All-take (suc n) [] h = tt
All-take (suc n) (p ∷ ps) h = (h.0, All-take n ps h.1)

reply-IsText : (t : Torrent) → All IsTextual t.peers → IsText (print (reply_value t))
reply-IsText t h = subst IsText (sym (reply_text-print t)) (
    append-IsText (header_text t) (peers_text (listed t) ++ codes "ee") (header_text-IsText t) (
      append-IsText (peers_text (listed t)) (codes "ee")
        (peers_text-IsText (listed t) (All-take 80 t.peers h)) (omega arith)))

-- A torrent whose list is sent: see IsModest.
pub record IsReady (t : Torrent) : Type 0 where
  pub modest : IsModest t
  pub textual : All IsTextual t.peers
  pub few : length t.peers ≤ 10 ^ 6

abbrev pub IsRoomy : Buffer → Type 0
IsRoomy out = IsValid out × (out.size < 10 ^ 9)

pub reply_lem :
    (finish : Torrent → Torrent) (tl : TorrentList) (out : Buffer) (t : Torrent)
    → IsReady t
    → IsRoomy out
    → (out' : Buffer) × ((list_peers t >>= λ m. reply finish tl out (t, m))
        ≡ some (list_jobdone (record tl { list = store (finish t) tl.list }), out'))
      × Holds (contents out ++ cells (print (reply_value t))) out'
unfolding reply
reply_lem finish tl out t v room =
    let (rest, listed, enc) = list_peers_lem t v.modest in
    let text = print (reply_value t) in
    let len = length-reply_text-lt t v.modest in
    let same = ap (λ s. length s) (reply_text-print t) in
    let (out', r, h, s) =
      append_lem out (contents out) text (record { valid = room.0; held = refl })
        (omega (arith, len, same, v.few, room.1)) in
    (out', rw (listed, c_string-cells text rest (reply-IsText t v.textual), r) refl, h)
