-- ===== src/Tests/Torrents.antt =====
-- A torrent with two peers, its list, its reply and its counters.
use ttracker.Base.{
  ◌≡◌, refl, Option, none, some, [], ◌∷◌, ◌++◌, Bytes, codes, length, replicate, arith,
  if◌then◌else◌, bytes_eq,
}
use ttracker.Base.Int.{pos, ◌+ℤ◌}
use ttracker.Base.Decimal.{print_int, digits}
use ttracker.Memory.{cells}
use ttracker.Memory.Printf.{rest_after}
use ttracker.Bencode.{print}
use ttracker.Bencode.Roundtrip.{Encodes}
use ttracker.Entry.{Peer, Torrent, TorrentList}
use ttracker.Reply.{bencode_torrent, list_peers}
use ttracker.Reply.Wire.{reply_value, bencode_torrent_lem}
use ttracker.Reply.Overflow.{list_peers-long_id}
use ttracker.Reply.Room.{IsSmall}
use ttracker.Torrent.{
  do_lookup, lookup_torrent, search_peer, same_peer, add_peer, remove_peer, update_peer, mk_torrent,
  complete,
}
use ttracker.Torrent.Lookup.{
  IsHash, announced, stored, scraped, Looked, lookup_torrent_lem, do_lookup-scraped,
}
use ttracker.Torrent.Peers.{IsConsistent, search-add_peer, or_else}
use ttracker.Torrent.Removal.{remove_peer_lem}
use ttracker.Torrent.Counters.{Reach, AreInts, Ledger, Reach-Ledger}

abbrev pub seed : Peer
seed = record {
  addr = 1;
  peer_id = codes "seed";
  port = pos 6881;
  ip = codes "10.0.0.1";
  left = pos 0;
}

abbrev pub leech : Peer
leech = record {
  addr = 2;
  peer_id = codes "leech";
  port = pos 6882;
  ip = codes "10.0.0.2";
  left = pos 9;
}

abbrev newcomer : Peer
newcomer = record {
  addr = 3;
  peer_id = codes "new";
  port = pos 6883;
  ip = codes "10.0.0.3";
  left = pos 9;
}

abbrev pub name : Bytes
name = codes "0123456789abcdef0123456789abcdef01234567"

abbrev pub pair_of_peers : Torrent
pair_of_peers = record {
  addr = 7;
  peers = leech ∷ seed ∷ [];
  info_hash = stored name;
  id = pos 1;
  seeders = pos 1;
  leechers = pos 1;
  complete = pos 0;
  peer_count = pos 2;
}

abbrev pub torrents : TorrentList
torrents = record { working = pos 0; list = pair_of_peers ∷ []; next = 8 }

pub name-IsHash : IsHash name
name-IsHash = (omega arith, omega arith)

lookup_torrent_lem_example :
    (tl' : TorrentList) × (r : Option Torrent) × (lookup_torrent
        (λ _. pos 5)
        (announced name)
        torrents
      ≡ some (tl', r))
    × Looked (λ _. pos 5) name torrents tl' r
lookup_torrent_lem_example =
    lookup_torrent_lem (λ _. pos 5) name torrents name-IsHash ((name, name-IsHash, refl), tt)

do_lookup-scraped_example : do_lookup (scraped name) (pair_of_peers ∷ []) ≡ none
do_lookup-scraped_example = do_lookup-scraped name pair_of_peers [] name-IsHash (omega arith) refl

two_peers-IsConsistent : IsConsistent pair_of_peers
unfolding same_peer bytes_eq
two_peers-IsConsistent = record { distinct = (((refl, omega arith), tt), (tt, tt)); counted = refl }

search-add_peer_example : search_peer newcomer (add_peer pair_of_peers newcomer).peers ≡ (
    if same_peer newcomer newcomer
    then some (or_else (search_peer newcomer pair_of_peers.peers) newcomer)
    else search_peer newcomer pair_of_peers.peers)
search-add_peer_example = search-add_peer pair_of_peers newcomer newcomer

remove_peer_lem_example :
    IsConsistent (remove_peer pair_of_peers seed)
    × (search_peer leech (remove_peer pair_of_peers seed).peers
        ≡ (if same_peer seed leech then none else search_peer leech pair_of_peers.peers))
unfolding search_peer same_peer bytes_eq
remove_peer_lem_example = remove_peer_lem pair_of_peers seed seed leech two_peers-IsConsistent refl

reply_length : length (print (reply_value pair_of_peers)) ≡ 141
unfolding print print_int digits
reply_length = refl

bencode_torrent_lem_example :
    (bencode_torrent pair_of_peers (replicate 256 (some 0)) (pos 256)
      ≡ some (
          cells (print (reply_value pair_of_peers))
          ++ rest_after (print (reply_value pair_of_peers)) (replicate 256 (some 0))))
    × Encodes (print (reply_value pair_of_peers)) (reply_value pair_of_peers)
bencode_torrent_lem_example =
    bencode_torrent_lem pair_of_peers (replicate 256 (some 0)) 256 (omega (arith, reply_length))
      (omega (arith, reply_length))

pub leech-IsSmall : IsSmall leech
leech-IsSmall = record { short_id = omega arith; dotted = omega arith; port = omega arith }

pub seed-IsSmall : IsSmall seed
seed-IsSmall = record { short_id = omega arith; dotted = omega arith; port = omega arith }

abbrev long_name : Peer
long_name = record seed { peer_id = replicate 60 65 }

abbrev one_long : Torrent
one_long = record pair_of_peers { peers = long_name ∷ []; peer_count = pos 1 }

list_peers-long_id_example : list_peers one_long ≡ none
unfolding print_int digits
list_peers-long_id_example =
    list_peers-long_id one_long long_name refl refl (omega arith) (omega arith) (omega arith)
      (omega arith)

-- A leech comes and completes.
finished : Reach 2 (update_peer (add_peer (mk_torrent 7) leech) leech complete) 1 0
unfolding mk_torrent
finished = Reach.finished leech (Reach.joined leech tt (Reach.created 7))

Reach-Ledger_example :
    AreInts (update_peer (add_peer (mk_torrent 7) leech) leech complete)
    × IsConsistent (update_peer (add_peer (mk_torrent 7) leech) leech complete)
    × Ledger (update_peer (add_peer (mk_torrent 7) leech) leech complete) 1 0
    × ((update_peer (add_peer (mk_torrent 7) leech) leech complete).seeders
          +ℤ (update_peer (add_peer (mk_torrent 7) leech) leech complete).leechers
        ≡ (update_peer (add_peer (mk_torrent 7) leech) leech complete).peer_count +ℤ pos 1)
Reach-Ledger_example = Reach-Ledger (omega arith) finished
