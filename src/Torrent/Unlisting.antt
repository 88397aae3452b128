-- ===== src/Torrent/Unlisting.antt =====
-- torrent.c: `torrent_remove_torrent`, and db.c through `torrent_init_cache_pool`.
use ttracker.Base.{
  ℕ, suc, ◌≡◌, ◌≢◌, ap, ◌∙◌, Bool, not, List, [], ◌∷◌, ◌++◌, All, ◌==◌, if◌then◌else◌, arith,
}
use ttracker.Base.Int.{ℤ, pos, negsuc, leb_ℤ, eq_ℤ}
use ttracker.Entry.{Torrent, TorrentList}

-- What a call does once it has the mutex: it waits for the condition, ends the program, or returns.
pub data Removing : Type 0 where
  waits : Removing
  exits : Removing
  removed : TorrentList → Removing

-- LIST_REMOVE of the entry at an address.
unfoldable pub unlist : ℕ → List Torrent → List Torrent
unlist addr [] = []
unlist addr (t ∷ ts) = let rest = t ∷ unlist addr ts in if t.addr == addr then ts else rest

unfoldable pub remove_torrent : ℕ → TorrentList → Removing
remove_torrent te tl =
    if not (leb_ℤ tl.working (pos 0))
    then waits
    else if not (leb_ℤ (pos 0) tl.working)
    then exits
    else removed (record tl { list = unlist te tl.list })

unlist-middle :
    (ts us : List Torrent) (t : Torrent)
    → All (λ u. u.addr ≢ t.addr) ts
    → unlist t.addr (ts ++ t ∷ us) ≡ ts ++ us
unfolding unlist
unlist-middle [] us t n = ground arith
unlist-middle (u ∷ ts) us t (n, ns) = ground (arith, unlist-middle ts us t ns)

-- While a thread works on the list, the call waits. Where none does, it takes exactly the entry out
-- of the list, and the others stay in order.
pub remove_torrent_lem :
    (ts us : List Torrent) (t : Torrent) (tl : TorrentList)
    → tl.list ≡ ts ++ t ∷ us
    → All (λ u. u.addr ≢ t.addr) ts
    → ((n : ℕ) → tl.working ≡ pos (suc n) → remove_torrent t.addr tl ≡ waits)
      × (tl.working ≡ pos 0 → remove_torrent t.addr tl ≡ removed (record tl { list = ts ++ us }))
unfolding remove_torrent
remove_torrent_lem ts us t tl e n =
    let out : unlist t.addr tl.list ≡ ts ++ us = ap (unlist t.addr) e ∙ unlist-middle ts us t n in
    (λ k w. ground arith, λ w. ground (arith, out))

-- `torrent_init_cache_pool`: the program ends where `db_connect` gives -1.
unfoldable pub init_cache_pool : ℤ → Bool
init_cache_pool connected = not (eq_ℤ connected (negsuc 0))
