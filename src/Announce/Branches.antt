-- ===== src/Announce/Branches.antt =====
-- The branches of the announce handler: the reply, the torrent that is stored, and the lock on the
-- removal of torrents.
use ttracker.Base.{
  ◌≡◌, ◌≢◌, inl, inr, refl, sym, ap, ◌∙◌, true, false, Option, none, some, List, [], ◌++◌, Bytes,
  codes, arith, append-nil, ◌>>=◌, Bool-cases, Option-cases,
}
use ttracker.Memory.{Object, cells}
use ttracker.Buffer.{Buffer}
use ttracker.Buffer.Growth.{contents}
use ttracker.Buffer.Contents.{Holds}
use ttracker.Bencode.{print}
use ttracker.Entry.{Peer, Torrent, TorrentList}
use ttracker.Reply.{list_peers}
use ttracker.Reply.Wire.{reply_value}
use ttracker.Reply.Room.{IsSmall}
use ttracker.Torrent.{
  Action, null, stop, complete, search_peer, list_jobdone, insert_peer, update_peer, remove_peer,
  add_peer, add_peer_and_return_list, update_peer_and_return_list,
}
use ttracker.Torrent.Peers.{add_peer_new}
use ttracker.Request.{PeerReq}
use ttracker.Announce.{strncmp_eq, store, reply, announce_peer}
use ttracker.Announce.Ready.{IsRoomy, IsTextual, reply_lem}
use ttracker.Announce.Quiet.{IsQuiet, IsReady-insert_peer, IsReady-listed, IsReady-update_peer}

reassociate :
    {A B C : Type 0} (x : A) (o : Option B) (f : A × B → Option C)
    → ((o >>= λ m. some (x, m)) >>= λ r. f r) ≡ (o >>= λ m. f (x, m))
reassociate x none f = refl
reassociate x (some m) f = refl

added :
    (f : Torrent × Object → Option (TorrentList × Buffer)) (te : Torrent) (pe : Peer)
    → search_peer pe te.peers ≡ none
    → (add_peer_and_return_list te pe >>= λ r. f r)
      ≡ (list_peers (insert_peer te pe) >>= λ m. f (insert_peer te pe, m))
unfolding add_peer_and_return_list
added f te pe e =
    reassociate (add_peer te pe) (list_peers (add_peer te pe)) f
    ∙ ap (λ x. list_peers x >>= λ m. f (x, m)) (add_peer_new te pe e)

updated :
    (f : Torrent × Object → Option (TorrentList × Buffer)) (te : Torrent) (pp : Peer) (a : Action)
    → (update_peer_and_return_list te pp a >>= λ r. f r)
      ≡ (list_peers (update_peer te pp a) >>= λ m. f (update_peer te pp a, m))
unfolding update_peer_and_return_list
updated f te pp a = reassociate (update_peer te pp a) (list_peers (update_peer te pp a)) f

complete-start : complete ≢ Action.start
complete-start = ground arith

-- What becomes of the list of torrents and what is replied, for the torrent of the request: a new
-- peer is listed by an event that begins with `star`, and without one nothing is replied; a listed
-- peer leaves by `stop`, after the reply; `comp` counts a seeder and a download; else the list is
-- sent.
pub data Outcome (tl : TorrentList) (te : Torrent) (event : Bytes) (pe : Peer)
    : List Torrent → Bytes → Type 0 where
  joins :
      search_peer pe te.peers ≡ none
      → strncmp_eq event (codes "start") 4 ≡ true
      → Outcome tl te event pe
          (store (insert_peer te pe) tl.list)
          (print (reply_value (insert_peer te pe)))
  silent :
      search_peer pe te.peers ≡ none
      → strncmp_eq event (codes "start") 4 ≡ false
      → Outcome tl te event pe tl.list []
  leaves :
      (pp : Peer)
      → search_peer pe te.peers ≡ some pp
      → strncmp_eq event (codes "stop") 4 ≡ true
      → Outcome tl te event pe (store (remove_peer te pp) tl.list) (print (reply_value te))
  completes :
      (pp : Peer)
      → search_peer pe te.peers ≡ some pp
      → strncmp_eq event (codes "stop") 4 ≡ false
      → strncmp_eq event (codes "completed") 4 ≡ true
      → Outcome tl te event pe
          (store (update_peer te pp complete) tl.list)
          (print (reply_value (update_peer te pp complete)))
  asks :
      (pp : Peer)
      → search_peer pe te.peers ≡ some pp
      → strncmp_eq event (codes "stop") 4 ≡ false
      → strncmp_eq event (codes "completed") 4 ≡ false
      → Outcome tl te event pe (store te tl.list) (print (reply_value te))

-- For a torrent whose counters can still be counted up and whose peers are as the protocol has them,
-- such a requesting peer, and an output buffer with room, the part of the handler behind the lookup
-- is defined on every branch: it ends with the lock given back once, with the torrent stored that
-- the branch calls for, and appends to the buffer nothing for an unlisted peer that does not start,
-- and else the whole bencoded list of the torrent, in which a peer that leaves still stands; see
-- Outcome.
pub announce_peer_lem :
    (tl : TorrentList) (te : Torrent) (req : PeerReq) (pe : Peer) (out : Buffer)
    → IsQuiet te
    → IsSmall pe
    → IsTextual pe
    → IsRoomy out
    → (ts : List Torrent) × (text : Bytes) × (out' : Buffer) × (announce_peer tl te req pe out
        ≡ some (list_jobdone (record tl { list = ts }), out'))
      × Outcome tl te req.event pe ts text
      × Holds (contents out ++ cells text) out'
unfolding announce_peer update_peer
announce_peer_lem tl te req pe out v small text room =
    elim (Option-cases (search_peer pe te.peers)) [
      | inl e ↦ elim (Bool-cases (strncmp_eq req.event (codes "start") 4)) [
        | inl b ↦
            let (out', r, h) =
              reply_lem (λ t. t) tl out (insert_peer te pe) (IsReady-insert_peer te pe v small text)
                room in
            (
              store (insert_peer te pe) tl.list,
              print (reply_value (insert_peer te pe)),
              out',
              rw (announce_peer, e, b) (added (λ x. reply (λ t. t) tl out x) te pe e ∙ r),
              joins e b,
              h,
            )
        | inr b ↦ (
          tl.list,
          [],
          out,
          rw (announce_peer, e, b) refl,
          Outcome.silent e b,
          record { valid = room.0; held = sym (append-nil (contents out)) },
        )
      ]
      | inr (pp, e) ↦ elim (Bool-cases (strncmp_eq req.event (codes "stop") 4)) [
        | inl b ↦
            let (out', r, h) =
              reply_lem (λ t. remove_peer t pp) tl out te (IsReady-listed te pe pp v e) room in
            (
              store (remove_peer te pp) tl.list,
              print (reply_value te),
              out',
              rw (announce_peer, e, b)
                  (updated (λ x. reply (λ t. remove_peer t pp) tl out x) te pp stop ∙ r),
              leaves pp e b,
              h,
            )
        | inr b ↦ elim (Bool-cases (strncmp_eq req.event (codes "completed") 4)) [
          | inl c ↦
              let te' = update_peer te pp complete in
              let (out', r, h) =
                reply_lem (λ t. t) tl out te'
                  (IsReady-update_peer te pe pp complete v e complete-start) room in
              (
                store te' tl.list,
                print (reply_value te'),
                out',
                rw (announce_peer, e, b, c)
                    (updated (λ x. reply (λ t. t) tl out x) te pp complete ∙ r),
                completes pp e b c,
                h,
              )
          | inr c ↦
              let (out', r, h) = reply_lem (λ t. t) tl out te (IsReady-listed te pe pp v e) room in
              (
                store te tl.list,
                print (reply_value te),
                out',
                rw (announce_peer, e, b, c) (updated (λ x. reply (λ t. t) tl out x) te pp null ∙ r),
                asks pp e b c,
                h,
              )
        ]
      ]
    ]
