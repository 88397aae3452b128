-- ===== src/Tests/Requests.antt =====
-- Announces for a torrent with two peers.
use ttracker.Base.{◌≡◌, ◌↔◌, refl, some, List, Bytes, codes, arith, bytes_eq}
use ttracker.Base.Int.{pos}
use ttracker.Memory.{cells, strncpy}
use ttracker.Buffer.{Buffer, mk_buffer}
use ttracker.Buffer.Growth.{mk_buffer-IsValid}
use ttracker.Buffer.Contents.{Holds}
use ttracker.Bencode.{print}
use ttracker.Entry.{Torrent, TorrentList}
use ttracker.Reply.Room.{IsSmall}
use ttracker.Torrent.{list_workon, list_jobdone}
use ttracker.Torrent.Lookup.{announced}
use ttracker.Failure.Replies.{failure_value}
use ttracker.Request.{
  PeerReq, event, accepted, sanitize_info_hash, all_graph, known_event, sanitize_fields,
  sanitize_peer_req,
}
use ttracker.Request.Clean.{IsClean, StartsHex, sanitize_peer_req_iff}
use ttracker.Announce.{error_message, requesting, announce_peer, handle_announce}
use ttracker.Announce.Quiet.{IsQuiet}
use ttracker.Announce.Branches.{Outcome, announce_peer_lem}
use ttracker.Announce.Handler.{Handled, handle_announce_lem, handle_announce-rejected}
use ttracker.Tests.Torrents.{
  name, name-IsHash, pair_of_peers, torrents, leech-IsSmall, seed-IsSmall,
}

abbrev request : PeerReq
request = record {
  downloaded = 0;
  uploaded = 0;
  left = 9;
  peer_id = codes "new";
  info_hash = announced name;
  event = codes "start";
  port = pos 6883;
}

abbrev address : Bytes
address = codes "10.0.0.3"

sanitize_peer_req_iff_example :
    (sanitize_peer_req request ≡ some accepted) ↔ (StartsHex request.info_hash 40 × IsClean request)
sanitize_peer_req_iff_example = sanitize_peer_req_iff request

request-accepted : sanitize_peer_req request ≡ some accepted
unfolding sanitize_peer_req sanitize_info_hash sanitize_fields all_graph known_event bytes_eq
    strncpy
request-accepted = refl

pair_of_peers-IsQuiet : IsQuiet pair_of_peers
pair_of_peers-IsQuiet = record {
  counted = refl;
  seeders = omega arith;
  leechers = omega arith;
  peers = (leech-IsSmall, (seed-IsSmall, tt));
  textual = ((omega arith, omega arith), ((omega arith, omega arith), tt));
  few = omega arith;
}

request-IsSmall : IsSmall (requesting request address 3)
request-IsSmall = record { short_id = omega arith; dotted = omega arith; port = omega arith }

announce_peer_lem_example :
    (ts : List Torrent) × (text : Bytes) × (out' : Buffer) × (announce_peer torrents pair_of_peers
        request
        (requesting request address 3)
        mk_buffer
      ≡ some (list_jobdone (record torrents { list = ts }), out'))
    × Outcome torrents pair_of_peers (codes "start") (requesting request address 3) ts text
    × Holds (cells text) out'
unfolding mk_buffer
announce_peer_lem_example =
    announce_peer_lem torrents pair_of_peers request (requesting request address 3) mk_buffer
      pair_of_peers-IsQuiet request-IsSmall (omega arith, omega arith)
      (mk_buffer-IsValid, omega arith)

handle_announce_lem_example :
    (tl' : TorrentList) × (text : Bytes) × (out' : Buffer) × (handle_announce
        (λ _. pos 5)
        request
        address
        3
        torrents
        mk_buffer
      ≡ some (tl', out'))
    × (tl'.working ≡ pos 0)
    × Handled
        (λ _. pos 5)
        name
        (list_workon torrents)
        request
        (requesting request address 3)
        tl'.list
        text
    × Holds (cells text) out'
unfolding mk_buffer
handle_announce_lem_example =
    handle_announce_lem (λ _. pos 5) name request address 3 torrents mk_buffer request-accepted
      name-IsHash refl ((name, name-IsHash, refl), tt) (pair_of_peers-IsQuiet, tt) request-IsSmall
      (omega arith, omega arith) (mk_buffer-IsValid, omega arith)

abbrev odd_request : PeerReq
odd_request = record request { event = codes "pause" }

handle_announce-rejected_example :
    (out' : Buffer) × (handle_announce (λ _. pos 5) odd_request address 3 torrents mk_buffer
      ≡ some (torrents, out'))
    × Holds (cells (print (failure_value (error_message event)))) out'
unfolding mk_buffer sanitize_peer_req sanitize_info_hash sanitize_fields all_graph known_event
    bytes_eq strncpy
handle_announce-rejected_example =
    handle_announce-rejected (λ _. pos 5) odd_request event address 3 torrents mk_buffer refl
      (mk_buffer-IsValid, omega arith)
