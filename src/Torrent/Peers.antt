-- ===== src/Torrent/Peers.antt =====
-- The peers of a torrent: a finite map from address and port to peers, with a counter.
use ttracker.Base.{
  ◌+◌, ◌≡◌, ◌≢◌, ◌↔◌, ◌⊎◌, inl, inr, refl, sym, ap, ap₂, subst, ◌∙◌, Bool, true, false, ◌&&◌,
  Option, none, some, List, [], ◌∷◌, All, arith, length, if◌then◌else◌, Bool-cases, Option-cases,
  bytes_eq, bytes_eq_iff,
}
use ttracker.Base.Int.{pos, ◌+ℤ◌, eq_ℤ, eq_ℤ_iff, pos-+ℤ-pos}
use ttracker.Entry.{Peer, Torrent}
use ttracker.Torrent.{same_peer, search_peer, insert_peer, add_peer}

same_peer_iff : (p q : Peer) → (same_peer p q ≡ true) ↔ ((p.ip ≡ q.ip) × (p.port ≡ q.port))
unfolding same_peer
same_peer_iff p q = ground (arith, bytes_eq_iff p.ip q.ip, eq_ℤ_iff p.port q.port)

-- Only the address and the port of the second peer matter.
pub same_peer_congr : (r p q : Peer) → same_peer p q ≡ true → same_peer r p ≡ same_peer r q
unfolding same_peer
same_peer_congr r p q h =
    let (e, f) = (same_peer_iff p q).0 h in ap₂ (λ i j. bytes_eq r.ip i && eq_ℤ r.port j) e f

search_peer_congr :
    (ps : List Peer) (p q : Peer) → same_peer p q ≡ true → search_peer p ps ≡ search_peer q ps
unfolding search_peer
search_peer_congr [] p q h = refl
search_peer_congr (r ∷ ps) p q h =
    ap₂ (λ b o. if b then some r else o) (same_peer_congr r p q h) (search_peer_congr ps p q h)

-- No other peer of the list has the address and port of `p`, nor its place in memory.
abbrev pub Apart : Peer → List Peer → Type 0
Apart p = All (λ q. (same_peer q p ≡ false) × (q.addr ≢ p.addr))

abbrev pub AreDistinct : List Peer → Type 0
AreDistinct [] = Unit {0}
AreDistinct (p ∷ ps) = Apart p ps × AreDistinct ps

-- The peers are distinct, and counted.
pub record IsConsistent (t : Torrent) : Type 0 where
  pub distinct : AreDistinct t.peers
  pub counted : t.peer_count ≡ pos (length t.peers)

-- A peer that the list holds.
abbrev pub Holds : List Peer → Peer → Type 0
Holds [] p = ⊥
Holds (q ∷ ps) p = (q ≡ p) ⊎ Holds ps p

-- What the search finds is in the list, with the address and port asked for.
pub search_peer-Holds :
    (ps : List Peer) (pe pp : Peer)
    → search_peer pe ps ≡ some pp
    → Holds ps pp × (same_peer pp pe ≡ true)
unfolding search_peer
search_peer-Holds [] pe pp h = cc
search_peer-Holds (q ∷ ps) pe pp h = elim (Bool-cases (same_peer q pe)) [
  | inl e ↦ let r : q ≡ pp = ground arith in (inl r, subst (λ x. same_peer x pe ≡ true) r e)
  | inr e ↦ let (m, s) = search_peer-Holds ps pe pp (ground arith) in (inr m, s)
]

search_peer-none :
    (ps : List Peer) (pe : Peer) → search_peer pe ps ≡ none → All (λ q. same_peer q pe ≡ false) ps
unfolding search_peer
search_peer-none [] pe h = tt
search_peer-none (q ∷ ps) pe h = elim (Bool-cases (same_peer q pe)) [
  | inl e ↦ absurd (ground arith)
  | inr e ↦ (e, search_peer-none ps pe (ground arith))
]

none-search_peer :
    (ps : List Peer) (pe : Peer) → All (λ q. same_peer q pe ≡ false) ps → search_peer pe ps ≡ none
unfolding search_peer
none-search_peer [] pe h = refl
none-search_peer (q ∷ ps) pe h = rw h.0 (none-search_peer ps pe h.1)

zip-Apart :
    (p : Peer) (ps : List Peer)
    → All (λ q. same_peer q p ≡ false) ps
    → All (λ q. q.addr ≢ p.addr) ps
    → Apart p ps
zip-Apart p [] h a = tt
zip-Apart p (q ∷ ps) h a = ((h.0, a.0), zip-Apart p ps h.1 a.1)

pub peers-insert_peer : (t : Torrent) (pe : Peer) → (insert_peer t pe).peers ≡ pe ∷ t.peers
unfolding insert_peer
peers-insert_peer t pe = ground arith

pub count-insert_peer :
    (t : Torrent) (pe : Peer) → (insert_peer t pe).peer_count ≡ t.peer_count +ℤ pos 1
unfolding insert_peer
count-insert_peer t pe = ground arith

-- Insertion of a peer that is not found, at a new address, keeps the peers distinct and counted.
insert_peer-IsConsistent :
    (t : Torrent) (pe : Peer)
    → IsConsistent t
    → search_peer pe t.peers ≡ none
    → All (λ q. q.addr ≢ pe.addr) t.peers
    → IsConsistent (insert_peer t pe)
insert_peer-IsConsistent t pe v h a = record {
  distinct =
      subst AreDistinct (sym (peers-insert_peer t pe))
        (zip-Apart pe t.peers (search_peer-none t.peers pe h) a, v.distinct);
  counted =
      count-insert_peer t pe
      ∙ ap (λ c. c +ℤ pos 1) v.counted
      ∙ pos-+ℤ-pos (length t.peers) 1
      ∙ ap (λ n. pos n) one_more;
}
  where
    one_more : length t.peers + 1 ≡ length (insert_peer t pe).peers
    one_more = omega (arith, ap (λ ps. length ps) (peers-insert_peer t pe))

pub add_peer_new :
    (t : Torrent) (pe : Peer) → search_peer pe t.peers ≡ none → add_peer t pe ≡ insert_peer t pe
unfolding add_peer
add_peer_new t pe e = rw (e, add_peer)

pub add_peer_old :
    (t : Torrent) (pe : Peer) {pp : Peer} → search_peer pe t.peers ≡ some pp → add_peer t pe ≡ t
unfolding add_peer
add_peer_old t pe e = rw (e, add_peer)

-- `torrent_add_peer_and_return_list` keeps the peers of a torrent distinct and counted: one that is
-- already listed is not added again.
pub add_peer-IsConsistent :
    (t : Torrent) (pe : Peer)
    → IsConsistent t
    → All (λ q. q.addr ≢ pe.addr) t.peers
    → IsConsistent (add_peer t pe)
add_peer-IsConsistent t pe v a = elim (Option-cases (search_peer pe t.peers)) [
  | inl e ↦ rw (add_peer_new t pe e) (insert_peer-IsConsistent t pe v e a)
  | inr (pp, e) ↦ rw (add_peer_old t pe e) v
]

abbrev pub or_else : Option Peer → Peer → Peer
or_else none p = p
or_else (some q) p = q

-- After it a search finds, at the address and port of the new peer, the old entry or else the new
-- one, and elsewhere what it found before.
pub search-add_peer :
    (t : Torrent) (pe qe : Peer)
    → search_peer qe (add_peer t pe).peers ≡ (
        if same_peer pe qe
        then some (or_else (search_peer pe t.peers) pe)
        else search_peer qe t.peers)
unfolding search_peer
search-add_peer t pe qe = elim (Option-cases (search_peer pe t.peers)) [
  | inl e ↦ rw (add_peer_new t pe e, peers-insert_peer t pe, e)
  | inr (pp, e) ↦ rw (add_peer_old t pe e, e) (found pp e (same_peer pe qe) refl)
]
  where
    found :
        (pp : Peer)
        → search_peer pe t.peers ≡ some pp
        → (b : Bool) → same_peer pe qe ≡ b
        → search_peer qe t.peers ≡ (if b then some pp else search_peer qe t.peers)
    found pp e true h = sym (search_peer_congr t.peers pe qe h) ∙ e
    found pp e false h = refl
