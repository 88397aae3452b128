-- ===== src/Torrent/Removal.antt =====
-- Removal of a peer: the map without that key.
use ttracker.Base.{
  ℕ, ◌+◌, ◌≡◌, ◌≢◌, inl, inr, refl, sym, ap, subst, ◌∙◌, Bool, true, false, none, some, List, [],
  ◌∷◌, All, arith, length, ◌==◌, ==_self, if◌then◌else◌, Bool-cases,
}
use ttracker.Base.Int.{pos, ◌-ℤ◌, pos--ℤ-pos}
use ttracker.Entry.{Peer, Torrent}
use ttracker.Torrent.{same_peer, search_peer, unlink, remove_peer}
use ttracker.Torrent.Peers.{
  Apart, AreDistinct, IsConsistent, Holds, same_peer_congr, search_peer-Holds,
}

pub peers-remove_peer :
    (t : Torrent) (pe : Peer) → (remove_peer t pe).peers ≡ unlink pe.addr t.peers
unfolding remove_peer
peers-remove_peer t pe = ground arith

count-remove_peer :
    (t : Torrent) (pe : Peer) → (remove_peer t pe).peer_count ≡ t.peer_count -ℤ pos 1
unfolding remove_peer
count-remove_peer t pe = ground arith

pub Apart-Holds :
    (q p : Peer) (ps : List Peer)
    → Apart q ps
    → Holds ps p
    → (same_peer p q ≡ false) × (p.addr ≢ q.addr)
Apart-Holds q p [] a h = absurd h
Apart-Holds q p (r ∷ ps) a (inl e) = subst (λ x. (same_peer x q ≡ false) × (x.addr ≢ q.addr)) e a.0
Apart-Holds q p (r ∷ ps) a (inr h) = Apart-Holds q p ps a.1 h

-- Peers apart from `p` are not what `qe` asks for, if `p` is.
Apart-search_peer :
    (p qe : Peer) (ps : List Peer) → Apart p ps → same_peer p qe ≡ true → search_peer qe ps ≡ none
unfolding search_peer
Apart-search_peer p qe [] a h = refl
Apart-search_peer p qe (r ∷ ps) a h =
    rw (sym (same_peer_congr r p qe h), a.0.0) (Apart-search_peer p qe ps a.1 h)

pub unlink_here : (p : Peer) (ps : List Peer) (n : ℕ) → p.addr ≡ n → unlink n (p ∷ ps) ≡ ps
unfolding unlink
unlink_here p ps n e = ground (arith)

pub unlink_later :
    (p : Peer) (ps : List Peer) (n : ℕ) → n ≢ p.addr → unlink n (p ∷ ps) ≡ p ∷ unlink n ps
unfolding unlink
unlink_later p ps n e = ground (arith)

search-unlink :
    (ps : List Peer) (pp qe : Peer)
    → AreDistinct ps
    → Holds ps pp
    → search_peer qe (unlink pp.addr ps) ≡ (if same_peer pp qe then none else search_peer qe ps)
unfolding search_peer
search-unlink [] pp qe d h = absurd h
search-unlink (q ∷ ps) pp qe d (inl e) =
    subst
      (λ x.
        search_peer qe (unlink x.addr (q ∷ ps))
        ≡ (if same_peer x qe then none else search_peer qe (q ∷ ps)))
      e (rw (unlink_here q ps q.addr refl) (here (same_peer q qe) refl))
  where
    here :
        (b : Bool)
        → same_peer q qe ≡ b
        → search_peer qe ps ≡ (if b then none else if b then some q else search_peer qe ps)
    here true h = Apart-search_peer q qe ps d.0 h
    here false h = refl
search-unlink (q ∷ ps) pp qe d (inr h) =
    rw (unlink_later q ps pp.addr (Apart-Holds q pp ps d.0 h).1)
      (later (search-unlink ps pp qe d.1 h) (same_peer q qe) refl)
  where
    later :
        (search_peer qe (unlink pp.addr ps) ≡ (if same_peer pp qe then none else search_peer qe ps))
        → (b : Bool) → same_peer q qe ≡ b
        → (if b then some q else search_peer qe (unlink pp.addr ps))
          ≡ (if same_peer pp qe then none else if b then some q else search_peer qe ps)
    later ih true e = rw (sym (same_peer_congr pp q qe e) ∙ (Apart-Holds q pp ps d.0 h).0)
    later ih false e = ih

All-unlink {κ} : (P : Peer → Type κ) (ps : List Peer) (n : ℕ) → All P ps → All P (unlink n ps)
unfolding unlink
All-unlink P [] n a = tt
All-unlink P (p ∷ ps) n a = elim (Bool-cases (p.addr == n)) [
  | inl e ↦ rw e a.1
  | inr e ↦ rw e (a.0, All-unlink P ps n a.1)
]

unlink-AreDistinct : (ps : List Peer) (n : ℕ) → AreDistinct ps → AreDistinct (unlink n ps)
unfolding unlink
unlink-AreDistinct [] n d = tt
unlink-AreDistinct (p ∷ ps) n d = elim (Bool-cases (p.addr == n)) [
  | inl e ↦ rw e d.1
  | inr e ↦ rw e (
    All-unlink (λ q. (same_peer q p ≡ false) × (q.addr ≢ p.addr)) ps n d.0,
    unlink-AreDistinct ps n d.1,
  )
]

pub length-unlink :
    (ps : List Peer) (pp : Peer) → Holds ps pp → length (unlink pp.addr ps) + 1 ≡ length ps
unfolding unlink
length-unlink [] pp h = absurd h
length-unlink (p ∷ ps) pp (inl e) =
    let f : (p.addr == pp.addr) ≡ true = ap (λ q. p.addr == q.addr) (sym e) ∙ ==_self p.addr in
    rw f (omega arith)
length-unlink (p ∷ ps) pp (inr h) = elim (Bool-cases (p.addr == pp.addr)) [
  | inl e ↦ rw e (omega arith)
  | inr e ↦ rw e (omega (arith, length-unlink ps pp h))
]

-- Removal of a peer that the search found keeps the peers distinct and counted; afterwards the
-- search finds nothing at its address and port, and elsewhere what it found before.
pub remove_peer_lem :
    (t : Torrent) (pe pp qe : Peer)
    → IsConsistent t
    → search_peer pe t.peers ≡ some pp
    → IsConsistent (remove_peer t pp)
      × (search_peer qe (remove_peer t pp).peers
          ≡ (if same_peer pp qe then none else search_peer qe t.peers))
remove_peer_lem t pe pp qe v e = (
  record {
    distinct =
        subst AreDistinct (sym (peers-remove_peer t pp))
          (unlink-AreDistinct t.peers pp.addr v.distinct);
    counted =
        count-remove_peer t pp
        ∙ ap (λ c. c -ℤ pos 1) v.counted
        ∙ pos--ℤ-pos (length t.peers) 1 (omega (arith, one_less))
        ∙ ap (λ n. pos n) (omega (arith, one_less));
  },
  rw (peers-remove_peer t pp) (search-unlink t.peers pp qe v.distinct held),
)
  where
    held : Holds t.peers pp
    held = (search_peer-Holds t.peers pe pp e).0

    one_less : length (remove_peer t pp).peers + 1 ≡ length t.peers
    one_less = rw (peers-remove_peer t pp) (length-unlink t.peers pp held)
