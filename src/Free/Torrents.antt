-- ===== src/Free/Torrents.antt =====
-- torrent.c: the functions that free peers, torrents and the context of a scrape.
use ttracker.Base.{
  ℕ, ◌<◌, ◌≡◌, refl, sym, subst, List, [], ◌∷◌, ◌++◌, map, All, length, arith, append_assoc,
  length-map,
}
use ttracker.Heap.{null, Words, Heap, done, Effect, load, set_word, free, each, ◌>>=◌, ◌>>◌}
use ttracker.Heap.Overlay.{
  Objects, overlay, AreFresh, overlay-append, AreFresh-append, free-first, load-middle,
  set_word-middle,
}
use ttracker.Heap.Each.{Node, first, block, objects}
use ttracker.Heap.Removing.{IsRemoved, list_objects, each_removing}
use ttracker.Free.Lists.{Plain, plain_node, plain_objects, each-free}
use ttracker.Free.{list_remove, list_remove_lem}

abbrev pub free_peer : ℕ → Effect
free_peer = free

-- `free_torrent`, for a torrent with the words peer_rwlk and peers behind the link.
unfoldable pub free_torrent : ℕ → ℕ → Effect
free_torrent k te = do
  peers ← load te 2
  pe ← load peers 0
  each free_peer k pe
  peers' ← load te 2
  set_word peers' 0 null
  peers'' ← load te 2
  free peers''
  peer_rwlk ← load te 1
  free peer_rwlk

-- The body of the loop of `torrent_stop_pool`.
unfoldable pub stop_torrent : ℕ → ℕ → ℕ → Effect
stop_torrent k list tp1 = do list_remove list tp1; free_torrent k tp1; free tp1

-- `torrent_stop_pool` behind `db_disconnect`, with fuel for `k` torrents and for `k` peers of each.
unfoldable pub stop_torrents : ℕ → ℕ → Effect
stop_torrents k list = do tp1 ← load list 0; each (stop_torrent k list) k tp1

-- A torrent with its peers.
pub record ListedTorrent : Type 0 where
  pub torrent : ℕ
  pub peer_rwlk : ℕ
  pub peers : ℕ
  pub words : Words
  pub listed : List Plain

-- The peers of a torrent, their list and the lock, in the order in which they are freed.
abbrev pub torrent_own : ListedTorrent → Objects
torrent_own t = plain_objects t.peers t.listed ++ (t.peer_rwlk, []) ∷ []

abbrev pub torrent_node : ListedTorrent → Node
torrent_node t = record {
  at = t.torrent;
  fields = t.peer_rwlk ∷ t.peers ∷ t.words;
  own = torrent_own t;
}

-- On a heap that has a torrent with its peers, beside any objects at other addresses, `free_torrent`
-- ends with the peers, their list and the lock freed once each; the torrent's own object and the
-- others stay as they are. Fuel above the number of peers is enough.
pub free_torrent_lem :
    (t : ListedTorrent) (n k : ℕ) (g : Heap)
    → length t.listed < k
    → AreFresh (block (torrent_node t) n) g
    → free_torrent k t.torrent (overlay (block (torrent_node t) n) g)
      ≡ done tt (overlay ((t.torrent, n ∷ t.peer_rwlk ∷ t.peers ∷ t.words) ∷ []) g)
unfolding free_torrent
free_torrent_lem t n k g l f =
    let w : Words = n ∷ t.peer_rwlk ∷ t.peers ∷ t.words in
    let ps = map plain_node t.listed in
    let chain = plain_objects t.peers t.listed in
    let te : Objects = (t.torrent, w) ∷ [] in
    let tail : Objects = (t.peer_rwlk, []) ∷ te in
    let flat = append_assoc chain ((t.peer_rwlk, []) ∷ []) te in
    let fresh = subst (λ zs. AreFresh zs g) flat f in
    let (now, (rn, re, (tn, ee, _))) = AreFresh-append chain tail g fresh in
    let own = overlay tail g in
    let (_, (pn, pe, _)) = AreFresh-append (objects ps) ((t.peers, first ps ∷ []) ∷ []) own now in
    let head : Objects = (t.peers, null ∷ []) ∷ (t.peer_rwlk, []) ∷ [] in
    let after : AreFresh (head ++ te) g = (pn, pe, (rn, re, (tn, ee, tt))) in
    rw
      (
        load-middle (torrent_own t) t.torrent 2 w t.peers [] g f refl,
        flat,
        overlay-append chain tail g,
        load-middle (objects ps) t.peers 0 (first ps ∷ []) (first ps) [] own now refl,
        each-free t.peers [] t.listed k own l now,
        load-middle ((t.peers, first ps ∷ []) ∷ (t.peer_rwlk, []) ∷ []) t.torrent 2 w t.peers [] g
            (pn, pe, (rn, re, (tn, ee, tt))) refl,
        set_word-middle [] t.peers 0 null (first ps ∷ []) tail g (pn, pe, (rn, re, (tn, ee, tt))),
        load-middle head t.torrent 2 w t.peers [] g after refl,
        free-first t.peers (null ∷ []) own pe,
        load-middle ((t.peer_rwlk, []) ∷ []) t.torrent 1 w t.peer_rwlk [] g (rn, re, (tn, ee, tt))
            refl,
      )
      (free-first t.peer_rwlk [] (overlay te g) re)

stop_torrent-IsRemoved :
    (k head : ℕ) (t : ListedTorrent)
    → length t.listed < k
    → IsRemoved (stop_torrent k head) head (torrent_node t)
unfolding stop_torrent
stop_torrent-IsRemoved k head t l n v rs h f =
    let w : Words = n ∷ t.peer_rwlk ∷ t.peers ∷ t.words in
    let own = torrent_own t in
    let te : Objects = (t.torrent, w) ∷ [] in
    let rest = rs ++ (head, n ∷ []) ∷ [] in
    let here = append_assoc own te (rs ++ (head, v ∷ []) ∷ []) in
    let there = append_assoc own te rest in
    let fresh = subst (λ zs. AreFresh zs h) here f in
    let (after, removed) =
      list_remove_lem head t.torrent n v (t.peer_rwlk ∷ t.peers ∷ t.words) own rs h fresh in
    let (now, _) =
      AreFresh-append (own ++ te) rest h (subst (λ zs. AreFresh zs h) (sym there) after) in
    let (_, (_, te_fresh, _)) = AreFresh-append own te (overlay rest h) now in
    rw
      (
        here,
        removed,
        ← there,
        overlay-append (own ++ te) rest h,
        free_torrent_lem t n k (overlay rest h) l now,
      )
      (free-first t.torrent w (overlay rest h) te_fresh)

-- Fuel for the torrents of the list and for the peers of each.
abbrev pub IsEnough : ℕ → List ListedTorrent → Type 0
IsEnough k ts = (length ts < k) × All (λ t. length t.listed < k) ts

torrents-IsRemoved :
    (k head : ℕ) (ts : List ListedTorrent)
    → All (λ t. length t.listed < k) ts
    → All (IsRemoved (stop_torrent k head) head) (map torrent_node ts)
torrents-IsRemoved k head [] l = tt
torrents-IsRemoved k head (t ∷ ts) (l, ls) =
    (stop_torrent-IsRemoved k head t l, torrents-IsRemoved k head ts ls)

-- On a heap that has the list of any torrents with their peers, beside any objects at other
-- addresses, `torrent_stop_pool` ends with every torrent, its peers, their list and its lock freed
-- once, and leaves exactly the empty list and the other objects. Fuel above the number of torrents
-- and above the number of peers of each is enough.
pub stop_torrents_lem :
    (list : ℕ) (ts : List ListedTorrent) (k : ℕ) (g : Heap)
    → IsEnough k ts
    → AreFresh (list_objects list (map torrent_node ts)) g
    → stop_torrents k list (overlay (list_objects list (map torrent_node ts)) g)
      ≡ done tt (overlay ((list, null ∷ []) ∷ []) g)
unfolding stop_torrents
stop_torrents_lem list ts k g (l, ls) f =
    let nodes = map torrent_node ts in
    rw (load-middle (objects nodes) list 0 (first nodes ∷ []) (first nodes) [] g f refl) (
      each_removing (stop_torrent k list) list nodes g k (omega (arith, length-map torrent_node ts))
        (torrents-IsRemoved k list ts ls) f)
