-- ===== src/Torrent.antt =====
-- torrent.c: the torrent list, and the peers and counters of a torrent. The `LIST_` macros are
-- operations on lists of entries, whose addresses are what pointers compare. The locks exclude
-- other threads from each function. The `int` counters do not wrap: that takes 2^31 announces.
pub mod Lookup
pub mod Peers
pub mod Removal
pub mod Counters
pub mod Scraped
pub mod Unlisting
use ttracker.Base.{
  ℕ, suc, ◌+◌, ◌-◌, ◌*◌, ◌≡◌, Bool, true, false, ◌&&◌, Option, none, some, List, [], ◌∷◌, ◌++◌,
  Bytes, leb, ◌==◌, if◌then◌else◌, ◌>>=◌, length, take, replicate, bytes_eq,
}
use ttracker.Base.Int.{ℤ, pos, negsuc, ◌+ℤ◌, ◌-ℤ◌, eq_ℤ}
use ttracker.Memory.{Object, c_string, cells, memcmp_eq, strncpy}
use ttracker.Entry.{Peer, Torrent, TorrentList}
use ttracker.Reply.{list_peers}

-- TORRENT_HASH_LEN
abbrev pub torrent_hash_len : ℕ
torrent_hash_len = 256

-- `torrent_do_lookup_torrent_info_hash`: the first entry with the hash.
unfoldable pub do_lookup : Object → List Torrent → Option (Option Torrent)
do_lookup hash [] = some none
do_lookup hash (pt ∷ ts) =
    let rest = do_lookup hash ts in
    memcmp_eq torrent_hash_len hash pt.info_hash >>= λ same. if same then some (some pt) else rest

-- `mk_torrent`; the hash and the id are left to the caller.
unfoldable pub mk_torrent : ℕ → Torrent
mk_torrent addr = record {
  addr = addr;
  peers = [];
  info_hash = replicate torrent_hash_len none;
  id = pos 0;
  seeders = pos 0;
  leechers = pos 0;
  complete = pos 0;
  peer_count = pos 0;
}

add_torrent : TorrentList → Bytes → ℤ → TorrentList × Option Torrent
unfolding mk_torrent
add_torrent tl hash tid = (record tl { list = te ∷ tl.list; next = suc tl.next }, some te)
  where
    te : Torrent
    te = record (mk_torrent tl.next) {
      info_hash = strncpy torrent_hash_len hash;
      id = tid;
      peer_count = pos 0;
    }

-- `torrent_lookup_torrent`, with `db` for `db_query_lookup_torrent` of db.c: an entry of the list,
-- or a new one at its head for a torrent of the data base.
pub lookup_torrent : (Bytes → ℤ) → Object → TorrentList → Option (TorrentList × Option Torrent)
unfolding add_torrent
lookup_torrent db info_hash tl = do_lookup info_hash tl.list >>= λ found. elim found [
  | some te ↦ some (tl, some te)
  | none ↦ c_string info_hash >>= λ hash.
      if eq_ℤ (db hash) (negsuc 0) then some (tl, none) else some (add_torrent tl hash (db hash))
]

-- `torrent_search_torrent`: the first entry with the id of `te`.
unfoldable pub search_torrent : Torrent → List Torrent → Option Torrent
search_torrent te [] = none
search_torrent te (tp ∷ ts) = if eq_ℤ tp.id te.id then some tp else search_torrent te ts

unfoldable pub same_peer : Peer → Peer → Bool
same_peer pt pe = bytes_eq pt.ip pe.ip && eq_ℤ pt.port pe.port

-- `peer_search_peer`: the first peer with the address and port of `pe`.
unfoldable pub search_peer : Peer → List Peer → Option Peer
search_peer pe [] = none
search_peer pe (pt ∷ ps) = if same_peer pt pe then some pt else search_peer pe ps

-- `torrent_list_workon` and `torrent_list_jobdone`.
unfoldable pub list_workon : TorrentList → TorrentList
list_workon tl = record tl { working = tl.working +ℤ pos 1 }

unfoldable pub list_jobdone : TorrentList → TorrentList
list_jobdone tl = record tl { working = tl.working -ℤ pos 1 }

-- The peer in front of the list, with its counter. The counters are `int`s; here they have no bound,
-- so an overflow, which C leaves undefined, is not modelled.
unfoldable pub insert_peer : Torrent → Peer → Torrent
insert_peer te pe =
    let added = record te { peers = pe ∷ te.peers; peer_count = te.peer_count +ℤ pos 1 } in
    if eq_ℤ pe.left (pos 0)
    then record added { seeders = te.seeders +ℤ pos 1 }
    else record added { leechers = te.leechers +ℤ pos 1 }

-- The part of `torrent_add_peer_and_return_list` before the reply.
unfoldable pub add_peer : Torrent → Peer → Torrent
unfolding insert_peer
add_peer te pe = elim (search_peer pe te.peers) [ none ↦ insert_peer te pe | some pp ↦ te ]

unfoldable pub add_peer_and_return_list : Torrent → Peer → Option (Torrent × Object)
add_peer_and_return_list te pe = list_peers (add_peer te pe) >>= λ out. some (add_peer te pe, out)

-- T_NULL, T_START, T_STOP, T_COMPLETE
pub data Action : Type 0 where
  null start stop complete : Action

-- The `switch` of `torrent_update_peer_and_return_list`.
unfoldable pub update_peer : Torrent → Peer → Action → Torrent
update_peer te pe complete = record te {
  complete = te.complete +ℤ pos 1;
  seeders = te.seeders +ℤ pos 1;
}
update_peer te pe start =
    if eq_ℤ pe.left (pos 0)
    then record te { seeders = te.seeders +ℤ pos 1 }
    else record te { leechers = te.leechers +ℤ pos 1 }
update_peer te pe stop = te
update_peer te pe null = te

unfoldable pub update_peer_and_return_list : Torrent → Peer → Action → Option (Torrent × Object)
update_peer_and_return_list te pe action =
    list_peers (update_peer te pe action) >>= λ out. some (update_peer te pe action, out)

-- `LIST_REMOVE`, of the entry at an address.
unfoldable pub unlink : ℕ → List Peer → List Peer
unlink addr [] = []
unlink addr (p ∷ ps) = if p.addr == addr then ps else p ∷ unlink addr ps

unfoldable pub remove_peer : Torrent → Peer → Torrent
remove_peer te pe =
    let removed = record te {
      peers = unlink pe.addr te.peers;
      peer_count = te.peer_count -ℤ pos 1;
    } in
    if eq_ℤ pe.left (pos 0)
    then record removed { seeders = te.seeders -ℤ pos 1; complete = te.complete -ℤ pos 1 }
    else record removed { leechers = te.leechers -ℤ pos 1 }
