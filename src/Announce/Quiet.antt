-- ===== src/Announce/Quiet.antt =====
-- When the torrent of an announce is ready to be replied with.
use ttracker.Base.{
  ◌<◌, ◌^◌, ◌≡◌, ◌≢◌, inl, inr, refl, sym, ap, subst, ◌∙◌, some, List, [], ◌∷◌, All, arith, length,
  Bool-cases,
}
use ttracker.Base.Int.{ℤ, pos, negsuc, ◌+ℤ◌, eq_ℤ, pos-+ℤ-pos}
use ttracker.Entry.{Peer, Torrent}
use ttracker.Reply.Room.{IsBelow, IsSmall, IsBelow-le}
use ttracker.Torrent.{Action, null, stop, complete, search_peer, insert_peer, update_peer}
use ttracker.Torrent.Peers.{peers-insert_peer, count-insert_peer, search_peer-Holds}
use ttracker.Torrent.Peers.{Holds as Listed}
use ttracker.Announce.Ready.{IsReady, IsTextual}

-- A torrent with counters that can be counted up, and peers as the protocol has them.
pub record IsQuiet (t : Torrent) : Type 0 where
  pub counted : t.peer_count ≡ pos (length t.peers)
  pub seeders : IsBelow 999 t.seeders
  pub leechers : IsBelow 999 t.leechers
  pub peers : All IsSmall t.peers
  pub textual : All IsTextual t.peers
  pub few : length t.peers < 10 ^ 6

pub IsBelow-suc : (v : ℤ) → IsBelow 999 v → IsBelow 1000 (v +ℤ pos 1)
IsBelow-suc (pos n) h = rw (pos-+ℤ-pos n 1) (omega (arith, h))
IsBelow-suc (negsuc n) h = absurd h

pub wider : (v : ℤ) → IsBelow 999 v → IsBelow 1000 v
wider v h = IsBelow-le v (omega arith) h

pub seeders-insert_peer :
    (t : Torrent) (pe : Peer) → IsBelow 999 t.seeders → IsBelow 1000 (insert_peer t pe).seeders
unfolding insert_peer
seeders-insert_peer t pe h = elim (Bool-cases (eq_ℤ pe.left (pos 0))) [
  | inl e ↦ rw e (IsBelow-suc t.seeders h)
  | inr e ↦ rw e (wider t.seeders h)
]

pub leechers-insert_peer :
    (t : Torrent) (pe : Peer) → IsBelow 999 t.leechers → IsBelow 1000 (insert_peer t pe).leechers
unfolding insert_peer
leechers-insert_peer t pe h = elim (Bool-cases (eq_ℤ pe.left (pos 0))) [
  | inl e ↦ rw e (wider t.leechers h)
  | inr e ↦ rw e (IsBelow-suc t.leechers h)
]

pub IsReady-insert_peer :
    (t : Torrent) (pe : Peer) → IsQuiet t → IsSmall pe → IsTextual pe → IsReady (insert_peer t pe)
IsReady-insert_peer t pe v small text =
    let e = peers-insert_peer t pe in
    let l = ap (λ ps. length ps) e in
    record {
      modest = record {
        counted =
            count-insert_peer t pe
            ∙ ap (λ c. c +ℤ pos 1) v.counted
            ∙ pos-+ℤ-pos (length t.peers) 1
            ∙ ap (λ n. pos n) (omega (arith, l));
        some_peer = omega (arith, l);
        seeders = seeders-insert_peer t pe v.seeders;
        leechers = leechers-insert_peer t pe v.leechers;
        peers = subst (λ ps. All IsSmall ps) (sym e) (small, v.peers);
      };
      textual = subst (λ ps. All IsTextual ps) (sym e) (text, v.textual);
      few = omega (arith, l, v.few);
    }

pub some_peer : (ps : List Peer) (p : Peer) → Listed ps p → 0 < length ps
some_peer [] p h = absurd h
some_peer (q ∷ ps) p h = omega arith

pub IsReady-listed :
    (t : Torrent) (pe pp : Peer) → IsQuiet t → search_peer pe t.peers ≡ some pp → IsReady t
IsReady-listed t pe pp v found = record {
  modest = record {
    counted = v.counted;
    some_peer = some_peer t.peers pp (search_peer-Holds t.peers pe pp found).0;
    seeders = wider t.seeders v.seeders;
    leechers = wider t.leechers v.leechers;
    peers = v.peers;
  };
  textual = v.textual;
  few = omega (arith, v.few);
}

pub IsReady-update_peer :
    (t : Torrent) (pe pp : Peer) (action : Action)
    → IsQuiet t
    → search_peer pe t.peers ≡ some pp
    → action ≢ Action.start
    → IsReady (update_peer t pp action)
unfolding update_peer
IsReady-update_peer t pe pp Action.start v found h = absurd (h refl)
IsReady-update_peer t pe pp null v found h = IsReady-listed t pe pp v found
IsReady-update_peer t pe pp stop v found h = IsReady-listed t pe pp v found
IsReady-update_peer t pe pp complete v found h =
    let r = IsReady-listed t pe pp v found in
    record {
      modest = record {
        counted = v.counted;
        some_peer = r.modest.some_peer;
        seeders = IsBelow-suc t.seeders v.seeders;
        leechers = r.modest.leechers;
        peers = v.peers;
      };
      textual = v.textual;
      few = r.few;
    }
