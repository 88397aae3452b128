-- ===== src/Torrent/Counters.antt =====
-- The counters of a torrent against its peers, over every history of announces.
use ttracker.Base.{
  ◌<◌, ◌≤◌, ◌^◌, ℕ, suc, ◌+◌, ◌≡◌, ◌≢◌, inl, inr, refl, ap, subst, Bool, true, false, some, List,
  [], ◌∷◌, All, arith, length, if◌then◌else◌, Bool-cases, Option-cases,
}
use ttracker.Base.Int.{ℤ, negsuc, pos, ◌+ℤ◌, ◌-ℤ◌, eq_ℤ, pos_part, neg_part, int_laws}
use ttracker.Entry.{Peer, Torrent}
use ttracker.Torrent.{
  mk_torrent, search_peer, insert_peer, add_peer, unlink, remove_peer, Action, null, start, stop,
  complete, update_peer,
}
use ttracker.Torrent.Peers.{
  IsConsistent, AreDistinct, Holds, add_peer-IsConsistent, add_peer_new, add_peer_old,
  search_peer-Holds,
}
use ttracker.Torrent.Removal.{Apart-Holds, unlink_here, unlink_later, remove_peer_lem}

abbrev pub is_seed : Peer → Bool
is_seed p = eq_ℤ p.left (pos 0)

-- The peers that came with nothing left to fetch, and the others.
abbrev pub seeds : List Peer → ℕ
seeds [] = 0
seeds (p ∷ ps) = (if is_seed p then 1 else 0) + seeds ps

abbrev pub leeches : List Peer → ℕ
leeches [] = 0
leeches (p ∷ ps) = (if is_seed p then 0 else 1) + leeches ps

seeds-add-leeches : (ps : List Peer) → seeds ps + leeches ps ≡ length ps
seeds-add-leeches [] = refl
seeds-add-leeches (p ∷ ps) = ground (arith, seeds-add-leeches ps)

-- A torrent after `n` announces, of which `f` were `complete`, and in which `k` seeds stopped.
pub data Reach : ℕ → Torrent → ℕ → ℕ → Type 0 where
  created : (addr : ℕ) → Reach 0 (mk_torrent addr) 0 0
  joined :
      {n : ℕ} {t : Torrent} {f k : ℕ} (pe : Peer)
      → All (λ q. q.addr ≢ pe.addr) t.peers
      → Reach n t f k
      → Reach (suc n) (add_peer t pe) f k
  finished :
      {n : ℕ} {t : Torrent} {f k : ℕ} (pp : Peer)
      → Reach n t f k
      → Reach (suc n) (update_peer t pp complete) (suc f) k
  refreshed :
      {n : ℕ} {t : Torrent} {f k : ℕ} (pp : Peer)
      → Reach n t f k
      → Reach (suc n) (update_peer t pp null) f k
  seed_left :
      {n : ℕ} {t : Torrent} {f k : ℕ} (pe pp : Peer)
      → search_peer pe t.peers ≡ some pp
      → is_seed pp ≡ true
      → Reach n t f k
      → Reach (suc n) (remove_peer (update_peer t pp stop) pp) f (suc k)
  leech_left :
      {n : ℕ} {t : Torrent} {f k : ℕ} (pe pp : Peer)
      → search_peer pe t.peers ≡ some pp
      → is_seed pp ≡ false
      → Reach n t f k
      → Reach (suc n) (remove_peer (update_peer t pp stop) pp) f k

pub record Ledger (t : Torrent) (f k : ℕ) : Type 0 where
  pub seeders : t.seeders ≡ pos (seeds t.peers + f)
  pub leechers : t.leechers ≡ pos (leeches t.peers)
  pub completed : t.complete +ℤ pos k ≡ pos f

insert_peer-Ledger :
    (t : Torrent) (pe : Peer) (f k : ℕ) → Ledger t f k → Ledger (insert_peer t pe) f k
unfolding insert_peer ◌+ℤ◌
insert_peer-Ledger t pe f k v = ground arith

add_peer-Ledger : (t : Torrent) (pe : Peer) (f k : ℕ) → Ledger t f k → Ledger (add_peer t pe) f k
add_peer-Ledger t pe f k v = elim (Option-cases (search_peer pe t.peers)) [
  | inl e ↦ rw (add_peer_new t pe e) (insert_peer-Ledger t pe f k v)
  | inr (pp, e) ↦ rw (add_peer_old t pe e) v
]

finish-Ledger :
    (t : Torrent) (pp : Peer) (f k : ℕ)
    → Ledger t f k
    → Ledger (update_peer t pp complete) (suc f) k
unfolding update_peer ◌+ℤ◌
finish-Ledger t pp f k v = ground arith

-- Taking out a peer takes its part out of the counts.
count-unlink :
    (ps : List Peer) (pp : Peer)
    → AreDistinct ps
    → Holds ps pp
    → (seeds (unlink pp.addr ps) + (if is_seed pp then 1 else 0) ≡ seeds ps)
      × (leeches (unlink pp.addr ps) + (if is_seed pp then 0 else 1) ≡ leeches ps)
count-unlink [] pp d h = absurd h
count-unlink (q ∷ ps) pp d (inl e) =
    subst
      (λ x.
        (seeds (unlink x.addr (q ∷ ps)) + (if is_seed x then 1 else 0) ≡ seeds (q ∷ ps))
        × (leeches (unlink x.addr (q ∷ ps)) + (if is_seed x then 0 else 1) ≡ leeches (q ∷ ps)))
      e (rw (unlink_here q ps q.addr refl) (omega arith))
count-unlink (q ∷ ps) pp d (inr h) =
    rw (unlink_later q ps pp.addr (Apart-Holds q pp ps d.0 h).1)
      (omega (arith, count-unlink ps pp d.1 h))

leave-Ledger :
    (t : Torrent) (pp : Peer) (f k : ℕ)
    → AreDistinct t.peers
    → Holds t.peers pp
    → Ledger t f k
    → Ledger (remove_peer (update_peer t pp stop) pp) f ((if is_seed pp then 1 else 0) + k)
unfolding remove_peer update_peer ◌-ℤ◌ ◌+ℤ◌
leave-Ledger t pp f k d h v = ground (arith, count-unlink t.peers pp d h)

-- `torrent_update_peer_and_return_list` leaves the peers and their number alone.
pub update_peer-IsConsistent :
    (t : Torrent) (pp : Peer) (a : Action) → IsConsistent t → IsConsistent (update_peer t pp a)
unfolding update_peer
update_peer-IsConsistent t pp null v = v
update_peer-IsConsistent t pp start v = record {
  distinct = elim (Bool-cases (is_seed pp)) [ inl e ↦ rw e v.distinct | inr e ↦ rw e v.distinct ];
  counted = elim (Bool-cases (is_seed pp)) [ inl e ↦ rw e v.counted | inr e ↦ rw e v.counted ];
}
update_peer-IsConsistent t pp stop v = v
update_peer-IsConsistent t pp complete v = record { distinct = v.distinct; counted = v.counted }

leave :
    (t : Torrent) (pe pp : Peer) (f k : ℕ)
    → search_peer pe t.peers ≡ some pp
    → IsConsistent t × Ledger t f k
    → IsConsistent (remove_peer (update_peer t pp stop) pp)
      × Ledger (remove_peer (update_peer t pp stop) pp) f ((if is_seed pp then 1 else 0) + k)
leave t pe pp f k e (c, l) = (
  unfold update_peer in (remove_peer_lem t pe pp pe c e).0,
  leave-Ledger t pp f k c.distinct (search_peer-Holds t.peers pe pp e).0 l,
)

refresh :
    (t : Torrent) (pp : Peer) (f k : ℕ)
    → IsConsistent t × Ledger t f k
    → IsConsistent (update_peer t pp null) × Ledger (update_peer t pp null) f k
unfolding update_peer
refresh t pp f k h = h

kept : {n : ℕ} {t : Torrent} {f k : ℕ} → Reach n t f k → IsConsistent t × Ledger t f k
unfolding mk_torrent
kept (created addr) = (
  record { distinct = tt; counted = refl },
  record { seeders = refl; leechers = refl; completed = unfold ◌+ℤ◌ in refl },
)
kept (joined {n} {t} {f} {k} pe a r) =
    let (c, l) = kept r in (add_peer-IsConsistent t pe c a, add_peer-Ledger t pe f k l)
kept (finished {n} {t} {f} {k} pp r) =
    let (c, l) = kept r in (update_peer-IsConsistent t pp complete c, finish-Ledger t pp f k l)
kept (refreshed {n} {t} {f} {k} pp r) = refresh t pp f k (kept r)
kept (seed_left {n} {t} {f} {k} pe pp e s r) =
    let (c, l) = leave t pe pp f k e (kept r) in
    (c, subst (Ledger (remove_peer (update_peer t pp stop) pp) f) (rw s (omega arith)) l)
kept (leech_left {n} {t} {f} {k} pe pp e s r) =
    let (c, l) = leave t pe pp f k e (kept r) in
    (c, subst (Ledger (remove_peer (update_peer t pp stop) pp) f) (rw s (omega arith)) l)

length-insert : (t : Torrent) (pe : Peer) → length (add_peer t pe).peers ≤ suc (length t.peers)
unfolding insert_peer
length-insert t pe = elim (Option-cases (search_peer pe t.peers)) [
  | inl e ↦ rw (add_peer_new t pe e) (ground arith)
  | inr (pp, e) ↦ rw (add_peer_old t pe e) (omega arith)
]

length-unlink : (addr : ℕ) (ps : List Peer) → length (unlink addr ps) ≤ length ps
unfolding unlink
length-unlink addr [] = omega arith
length-unlink addr (p ∷ ps) = ground (arith, length-unlink addr ps)

-- Every announce counts once.
few : {n : ℕ} {t : Torrent} {f k : ℕ} → Reach n t f k → length t.peers + f + k ≤ n
unfolding mk_torrent update_peer remove_peer
few (created addr) = omega arith
few (joined {n} {t} pe a r) = omega (arith, length-insert t pe, few r)
few (finished pp r) = omega (arith, few r)
few (refreshed pp r) = omega (arith, few r)
few (seed_left {n} {t} pe pp e s r) = ground (arith, length-unlink pp.addr t.peers, few r)
few (leech_left {n} {t} pe pp e s r) = ground (arith, length-unlink pp.addr t.peers, few r)

-- The range of an int.
abbrev pub IsInt : ℤ → Type 0
IsInt z = (pos_part z < 2 ^ 31) × (neg_part z ≤ 2 ^ 31)

difference-IsInt : (z : ℤ) (k f : ℕ) → z +ℤ pos k ≡ pos f → f + k < 2 ^ 31 → IsInt z
difference-IsInt (pos m) k f e h = (omega (int_laws, h, ap pos_part e, ap neg_part e), omega arith)
difference-IsInt (negsuc m) k f e h =
    (omega arith, omega (int_laws, h, ap pos_part e, ap neg_part e))

abbrev pub AreInts : Torrent → Type 0
AreInts t = IsInt t.seeders × IsInt t.leechers × IsInt t.complete × IsInt t.peer_count

-- Whatever announces a torrent has had, fewer than 2^31, of which `f` were `complete` and `k` were
-- stops of seeds: no counter has left the range of an int; the peers are distinct and counted; as
-- seeders count the peers that came as seeds and `f` more, as leechers all the other peers, and as
-- completed `f` less `k`. So the seeders and leechers that the torrent reports exceed its number of
-- peers by `f`: a peer that completes is counted twice, and stays counted when it leaves.
pub Reach-Ledger :
    {n : ℕ} {t : Torrent} {f k : ℕ}
    → n < 2 ^ 31
    → Reach n t f k
    → AreInts t × IsConsistent t × Ledger t f k × (t.seeders +ℤ t.leechers ≡ t.peer_count +ℤ pos f)
Reach-Ledger {n} {t} {f} {k} h r =
    let (c, l) = kept r in
    let small = few r in
    let sum = seeds-add-leeches t.peers in
    let s : t.seeders ≡ pos (seeds t.peers + f) = l.seeders in
    let e : t.leechers ≡ pos (leeches t.peers) = l.leechers in
    let d : t.complete +ℤ pos k ≡ pos f = l.completed in
    let p : t.peer_count ≡ pos (length t.peers) = c.counted in
    (
      (
        rw s (omega (arith, h, small, sum), omega arith),
        rw e (omega (arith, h, small, sum), omega arith),
        difference-IsInt t.complete k f d (omega (arith, h, small)),
        rw p (omega (arith, h, small), omega arith),
      ),
      c,
      l,
      rw (s, e, p) (omega (int_laws, sum)),
    )
