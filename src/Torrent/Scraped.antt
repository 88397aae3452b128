-- ===== src/Torrent/Scraped.antt =====
-- The lookup of a torrent by a hash that was decoded for a scrape, where the list has no torrent with
-- it: it compares the hashes up to the first difference, and never what is behind them.
use ttracker.Base.{
  ℕ, zero, suc, ◌-◌, ◌≤◌, ◌<◌, ◌≡◌, ◌≢◌, refl, false, Option, none, some, List, [], ◌∷◌, ◌++◌,
  Bytes, All, arith, length, length-append, length-map, length-replicate, take_all, replicate,
  bytes_eq, Bool-cases, inl, inr,
}
use ttracker.Base.Int.{ℤ, pos, negsuc, eq_ℤ, eq_ℤ_iff}
use ttracker.Memory.{Object, memcmp_eq, strncpy, cells}
use ttracker.Memory.Laws.{IsText, c_string-cells}
use ttracker.Entry.{Torrent, TorrentList}
use ttracker.Torrent.{torrent_hash_len, do_lookup, add_torrent, lookup_torrent, mk_torrent}
use ttracker.Torrent.Lookup.{scraped, stored}

memcmp_eq-differs :
    (s t : Bytes) (n : ℕ) (a b : Object)
    → length s ≡ length t
    → length s ≤ n
    → bytes_eq s t ≡ false
    → memcmp_eq n (cells s ++ a) (cells t ++ b) ≡ some false
unfolding memcmp_eq bytes_eq
memcmp_eq-differs [] [] n a b l k e = absurd (cc)
memcmp_eq-differs [] (y ∷ t) n a b l k e = absurd (omega arith)
memcmp_eq-differs (x ∷ s) [] n a b l k e = absurd (omega arith)
memcmp_eq-differs (x ∷ s) (y ∷ t) zero a b l k e = absurd (omega arith)
memcmp_eq-differs (x ∷ s) (y ∷ t) (suc n) a b l k e = ground (arith, memcmp_eq-differs s t n a b)

-- A torrent of the list has another hash, of the same length.
abbrev pub IsOther : Bytes → Torrent → Type 0
IsOther s t =
    (h : Bytes) × (t.info_hash ≡ stored h) × (length s ≡ length h) × (bytes_eq s h ≡ false)

do_lookup-other :
    (s : Bytes) (ts : List Torrent)
    → length s < torrent_hash_len
    → All (IsOther s) ts
    → do_lookup (scraped s) ts ≡ some none
unfolding do_lookup strncpy
do_lookup-other s [] l a = refl
do_lookup-other s (t ∷ ts) l ((h, e, k, d), a) =
    rw
      (
        e,
        take_all h torrent_hash_len (omega arith),
        memcmp_eq-differs s h torrent_hash_len (some 0 ∷ replicate (256 - length s) none)
            (replicate (torrent_hash_len - length h) (some 0)) k (omega arith) d,
      )
      (do_lookup-other s ts l a)

-- The torrent of the data base is put in front, with nothing counted.
pub lookup_torrent-scraped :
    (db : Bytes → ℤ) (s : Bytes) (tl : TorrentList)
    → IsText s
    → length s < torrent_hash_len
    → All (IsOther s) tl.list
    → db s ≢ negsuc 0
    → (te : Torrent) × (lookup_torrent db (scraped s) tl
        ≡ some (record tl { list = te ∷ tl.list; next = suc tl.next }, some te))
      × (te.info_hash ≡ stored s)
      × (te.seeders ≡ pos 0)
      × (te.leechers ≡ pos 0)
      × (te.complete ≡ pos 0)
unfolding lookup_torrent add_torrent mk_torrent
lookup_torrent-scraped db s tl t l a d = elim (Bool-cases (eq_ℤ (db s) (negsuc 0))) [
  | inl e ↦ absurd (d ((eq_ℤ_iff (db s) (negsuc 0)).0 e))
  | inr e ↦ (
    record (mk_torrent tl.next) { info_hash = stored s; id = db s; peer_count = pos 0 },
    rw (do_lookup-other s tl.list l a, c_string-cells s (replicate (256 - length s) none) t, e)
        refl,
    refl,
    refl,
    refl,
    refl,
  )
]

pub length-stored : (s : Bytes) → length s ≤ torrent_hash_len → length (stored s) ≡ torrent_hash_len
unfolding strncpy
length-stored s l = rw (take_all s torrent_hash_len l) (
    let pad : Object = replicate (torrent_hash_len - length s) (some 0) in
    let k : length pad ≡ torrent_hash_len - length s = length-replicate _ _ in
    omega (arith, length-append (cells s) pad, length-map {B = Option ℕ} some s, k))
