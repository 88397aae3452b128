-- ===== src/Tests/Frees.antt =====
-- Structures on a heap, and what frees them.
use ttracker.Base.{
  ◌≡◌, refl, Bool, true, false, not, ◌&&◌, Option, none, some, [], ◌∷◌, ◌++◌, map, ◌==◌, arith,
}
use ttracker.Heap.{Heap, put, done, fault}
use ttracker.Heap.Overlay.{Objects, overlay, AreFresh}
use ttracker.Free.ThreadData.{td_node}
use ttracker.Free.Waiting.{waiting_objects}
use ttracker.Free.Pools.{pool_objects}
use ttracker.Free.Values.{free_with_keys}
use ttracker.Free.Values.Trees.{
  Tree, list, dict, text, number, no_item, item, no_entry, entry, tree_objects, item_nodes,
  entry_nodes, tree_size, items_size, entries_size, data_of, type_of, free_with_keys_lem,
}
use ttracker.Free.Twice.{stop_tds, bare_node, stop_tds-waiting}
use ttracker.Free.Shutdown.{Layout, free_server}
use ttracker.Free.Shutdown.Freed.{Structures, HasFuel, server_objects, free_server_lem}

abbrev pub nothing : Heap
nothing a = none

abbrev pub is_none : {A : Type 0} → Option A → Bool
is_none none = true
is_none (some a) = false

abbrev pub are_fresh : Objects → Bool
are_fresh [] = true
are_fresh ((p, o) ∷ xs) = not (p == 0) && (is_none (overlay xs nothing p) && are_fresh xs)

pub are_fresh-AreFresh : (xs : Objects) → are_fresh xs ≡ true → AreFresh xs nothing
are_fresh-AreFresh [] h = tt
are_fresh-AreFresh ((p, o) ∷ xs) h = (
  ground arith,
  nothing-there (overlay xs nothing p) (ground arith),
  are_fresh-AreFresh xs (ground arith),
)
  where
    nothing-there : {A : Type 0} (r : Option A) → is_none r ≡ true → r ≡ none
    nothing-there none e = refl
    nothing-there (some a) e = absurd (cc)

-- A dictionary with the list of a text and a number under one key, and a text under another.
abbrev value : Tree
value = dict 1 (
    entry 2 3 (list 4 (item 5 (text 6) (item 7 (number 30) no_item)))
      (entry 8 9 (text 10) no_entry))

value-fresh : AreFresh (tree_objects value) nothing
unfolding tree_objects item_nodes entry_nodes put
value-fresh = are_fresh-AreFresh (tree_objects value) refl

free_with_keys_lem_example :
    free_with_keys 20 (data_of value) (type_of value) (overlay (tree_objects value) nothing)
    ≡ done tt nothing
unfolding tree_size items_size entries_size
free_with_keys_lem_example = free_with_keys_lem value 20 nothing (omega arith) value-fresh

-- Thread data at 3 waits and is the pool's too.
abbrev held_twice : Objects
held_twice =
    waiting_objects 1 2 0 4 5 (record { entry = 6; td = some 3; words = 7 ∷ [] } ∷ [])
    ++ pool_objects 8 9 1 2 (
        map td_node (record { entry = 10; status = 0; td = 11; words = 7 ∷ [] } ∷ [])
        ++ bare_node 12 3 1 ∷ map td_node [])

held_twice-fresh : AreFresh held_twice nothing
unfolding put
held_twice-fresh = are_fresh-AreFresh held_twice refl

stop_tds-waiting_example : stop_tds 5 1 8 (overlay held_twice nothing) ≡ fault
stop_tds-waiting_example =
    stop_tds-waiting 1 2 0 4 5 [] [] 6 3 (7 ∷ []) 8 9 1 2 12 1
      (record { entry = 10; status = 0; td = 11; words = 7 ∷ [] } ∷ []) [] 5 nothing (omega arith)
      (omega arith) held_twice-fresh

-- A server with a torrent of one peer.
abbrev layout : Layout
layout = record {
  list = 1;
  mutex = 2;
  cond = 3;
  mtx = 4;
  jobs = 5;
  wq = 6;
  tl = 7;
  sq = 8;
  th_list = 9;
  s = 10;
  wq_cond = 11;
  working = 0;
  first_job = 0;
  first_thread = 0;
  fd = 3;
  tries = 0;
  bp = 12;
  tlist = 13;
  tp = 14;
  sq_tp = 7;
}

abbrev structures : Structures
structures = record {
  torrents =
      record {
        torrent = 15;
        peer_rwlk = 16;
        peers = 17;
        words = 1 ∷ [];
        listed = record { at = 18; words = 80 ∷ [] } ∷ [];
      }
      ∷ [];
  buffers =
      record { entry = 19; status = 0; b = 20; p = some 21; chars = []; size = 64; cursor = 0 }
      ∷ [];
  waiting = record { entry = 22; td = some 23; words = 0 ∷ [] } ∷ [];
  tds = record { entry = 24; status = 0; td = 25; words = 0 ∷ [] } ∷ [];
  buffer_list = 26;
  buffers_inuse = 0;
  buffers_num = 1;
  waiting_list = 27;
  waiting_inuse = 0;
  waiting_cond = 28;
  waiting_mtx = 29;
  td_list = 30;
  tds_inuse = 0;
  tds_num = 1;
}

structures-fresh : AreFresh (server_objects layout structures) nothing
unfolding put
structures-fresh = are_fresh-AreFresh (server_objects layout structures) refl

structures-fuel : HasFuel 3 structures
structures-fuel = record {
  torrents = (omega arith, (omega arith, tt));
  buffers = omega arith;
  waiting = omega arith;
  tds = omega arith;
}

free_server_lem_example :
    free_server 3 10 (overlay (server_objects layout structures) nothing) ≡ done tt nothing
free_server_lem_example =
    free_server_lem layout structures 3 nothing structures-fuel structures-fresh
