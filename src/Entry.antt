-- ===== src/Entry.antt =====
-- The structs of torrent.h that are linked into lists. Pointers are addresses: an entry keeps the
-- one that it was allocated at. A char array that always holds a string is given as that string.
use ttracker.Base.{ℕ, List, Bytes}
use ttracker.Base.Int.{ℤ}
use ttracker.Memory.{Object}

-- `struct peer_entry`.
pub record Peer : Type 0 where
  pub addr : ℕ
  pub peer_id : Bytes
  pub port : ℤ
  pub ip : Bytes
  pub left : ℤ

-- `struct torrent_entry`, without its lock and the field `free_torrent`, which nothing sets.
pub record Torrent : Type 0 where
  pub addr : ℕ
  pub peers : List Peer
  pub info_hash : Object  -- 256 chars
  pub id : ℤ
  pub seeders : ℤ
  pub leechers : ℤ
  pub complete : ℤ
  pub peer_count : ℤ

-- `struct torrent_list_t`, with the address that the allocator gives next.
pub record TorrentList : Type 0 where
  pub working : ℤ
  pub list : List Torrent
  pub next : ℕ
