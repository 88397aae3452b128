-- ===== src/Torrent/Lookup.antt =====
-- The torrent list as a cache of the data base, and which lookups have a defined result.
use ttracker.Base.{
  ℕ, zero, suc, ◌+◌, ◌-◌, ◌<◌, ◌≤◌, ◌≡◌, ◌≢◌, ◌⊎◌, inl, inr, refl, sym, ap, ◌∙◌, true, false,
  Option, none, some, List, [], ◌∷◌, ◌++◌, Bytes, All, arith, length, take_all, replicate,
  Bool-cases, bytes_eq, bytes_eq_iff, ==_self,
}
use ttracker.Base.Int.{ℤ, pos, negsuc, eq_ℤ, eq_ℤ_iff}
use ttracker.Memory.{Object, memcmp_eq, strncpy, cells, c_string}
use ttracker.Memory.Laws.{IsText, c_string-cells}
use ttracker.Entry.{Torrent, TorrentList}
use ttracker.Torrent.{torrent_hash_len, do_lookup, add_torrent, lookup_torrent}

zeros : ℕ → Object
zeros n = replicate n (some 0)

memcmp_eq-zeros : (n p q : ℕ) → n ≤ p → n ≤ q → memcmp_eq n (zeros p) (zeros q) ≡ some true
unfolding memcmp_eq zeros
memcmp_eq-zeros zero p q h k = refl
memcmp_eq-zeros (suc n) zero q h k = elim h [ ]
memcmp_eq-zeros (suc n) (suc p) zero h k = elim k [ ]
memcmp_eq-zeros (suc n) (suc p) (suc q) h k = memcmp_eq-zeros n p q (omega arith) (omega arith)

-- Two arrays that hold a string each, padded with NULs.
memcmp_eq-padded :
    (s t : Bytes) (n p q : ℕ)
    → IsText s
    → IsText t
    → length s < n
    → length t < n
    → n ≤ length s + p
    → n ≤ length t + q
    → memcmp_eq n (cells s ++ zeros p) (cells t ++ zeros q) ≡ some (bytes_eq s t)
unfolding memcmp_eq bytes_eq zeros
memcmp_eq-padded s t zero p q is it hs ht hp hq = elim hs [ ]
memcmp_eq-padded [] [] (suc n) p q is it hs ht hp hq =
    memcmp_eq-zeros (suc n) p q (omega arith) (omega arith)
memcmp_eq-padded [] (y ∷ t) (suc n) zero q is it hs ht hp hq = absurd (omega arith)
memcmp_eq-padded [] (y ∷ t) (suc n) (suc p) q is it hs ht hp hq = ground arith
memcmp_eq-padded (x ∷ s) [] (suc n) p zero is it hs ht hp hq = absurd (omega arith)
memcmp_eq-padded (x ∷ s) [] (suc n) p (suc q) is it hs ht hp hq = ground arith
memcmp_eq-padded (x ∷ s) (y ∷ t) (suc n) p q is it hs ht hp hq = ground (
  arith,
  memcmp_eq-padded s t n p q is.1 it.1 (omega arith) (omega arith) (omega arith) (omega arith),
)

abbrev pub IsHash : Bytes → Type 0
IsHash s = IsText s × (length s < torrent_hash_len)

-- `info_hash` of a request of an announce: its 257 chars are cleared before the hash is decoded.
abbrev pub announced : Bytes → Object
announced s = strncpy 257 s

abbrev pub stored : Bytes → Object
stored s = strncpy torrent_hash_len s

memcmp_eq-stored :
    (s t : Bytes)
    → IsHash s
    → IsHash t
    → memcmp_eq torrent_hash_len (announced s) (stored t) ≡ some (bytes_eq s t)
unfolding strncpy zeros
memcmp_eq-stored s t hs ht =
    rw (take_all s 257 (omega arith), take_all t torrent_hash_len (omega arith))
      (memcmp_eq-padded s t torrent_hash_len (257 - length s) (torrent_hash_len - length t) hs.0
        ht.0 hs.1 ht.1 (omega arith) (omega arith))

-- Every entry keeps the hash of a torrent.
abbrev pub AreHashed : List Torrent → Type 0
AreHashed = All (λ t. (h : Bytes) × IsHash h × (t.info_hash ≡ stored h))

-- The lookup in the list, on hashes as strings.
abbrev pub HasHash : Bytes → List Torrent → Option Torrent → Type 0
HasHash s ts none = All (λ t. t.info_hash ≢ stored s) ts
HasHash s ts (some te) = te.info_hash ≡ stored s

compare_hash :
    (s : Bytes) (t : Torrent)
    → IsHash s
    → ((h : Bytes) × IsHash h × (t.info_hash ≡ stored h))
    → ((memcmp_eq torrent_hash_len (announced s) t.info_hash ≡ some true)
        × (t.info_hash ≡ stored s))
      ⊎ ((memcmp_eq torrent_hash_len (announced s) t.info_hash ≡ some false)
          × (t.info_hash ≢ stored s))
compare_hash s t hs (h, hh, e) = elim (Bool-cases (bytes_eq s h)) [
  | inl b ↦
      inl (compared ∙ ap (λ c. some c) b, e ∙ ap (λ u. stored u) (sym ((bytes_eq_iff s h).0 b)))
  | inr b ↦ inr (compared ∙ ap (λ c. some c) b, λ f. differ b f)
]
  where
    compared : memcmp_eq torrent_hash_len (announced s) t.info_hash ≡ some (bytes_eq s h)
    compared = rw e (memcmp_eq-stored s h hs hh)

    differ : bytes_eq s h ≡ false → t.info_hash ≡ stored s → ⊥
    differ b f =
        let same : some (bytes_eq s h) ≡ some (bytes_eq s s) =
          sym compared
          ∙ ap (λ m. memcmp_eq torrent_hash_len (announced s) m) f
          ∙ memcmp_eq-stored s s hs hs in
        let self = (bytes_eq_iff s s).1 refl in cc

do_lookup-total :
    (s : Bytes) (ts : List Torrent)
    → IsHash s
    → AreHashed ts
    → (r : Option Torrent) × (do_lookup (announced s) ts ≡ some r) × HasHash s ts r
unfolding do_lookup
do_lookup-total s [] h a = (none, refl, tt)
do_lookup-total s (t ∷ ts) h a = elim (compare_hash s t h a.0) [
  | inl (c, e) ↦ (some t, rw c, e)
  | inr (c, e) ↦
      let (r, found, hash) = do_lookup-total s ts h a.1 in (r, rw (c, found), more r e hash)
]
  where
    more : (r : Option Torrent) → t.info_hash ≢ stored s → HasHash s ts r → HasHash s (t ∷ ts) r
    more none e hash = (e, hash)
    more (some te) e hash = hash

c_string-announced : (s : Bytes) → IsHash s → c_string (announced s) ≡ some s
unfolding strncpy
c_string-announced s h =
    let e : 257 - length s ≡ suc (256 - length s) = omega arith in
    rw (take_all s 257 (omega arith), e)
      (c_string-cells s (replicate (256 - length s) (some 0)) h.0)

-- The results of a lookup by the hash `s`.
pub data Looked (db : Bytes → ℤ) (s : Bytes) (tl : TorrentList)
    : TorrentList → Option Torrent → Type 0 where
  cached :
      (te : Torrent)
      → do_lookup (announced s) tl.list ≡ some (some te)
      → te.info_hash ≡ stored s
      → Looked db s tl tl (some te)
  unknown : All (λ t. t.info_hash ≢ stored s) tl.list → db s ≡ negsuc 0 → Looked db s tl tl none
  loaded :
      (te : Torrent)
      → All (λ t. t.info_hash ≢ stored s) tl.list
      → db s ≢ negsuc 0
      → (te.info_hash ≡ stored s)
        × (te.id ≡ db s)
        × (te.peers ≡ [])
        × (te.peer_count ≡ pos 0)
        × (te.seeders ≡ pos 0)
        × (te.leechers ≡ pos 0)
      → Looked db s tl (record tl { list = te ∷ tl.list; next = suc tl.next }) (some te)

finish :
    (db : Bytes → ℤ) (s : Bytes) (tl : TorrentList)
    → IsHash s
    → (r : Option Torrent) → do_lookup (announced s) tl.list ≡ some r
    → HasHash s tl.list r
    → (tl' : TorrentList) × (r : Option Torrent) × (lookup_torrent db (announced s) tl
        ≡ some (tl', r))
      × Looked db s tl tl' r
unfolding lookup_torrent
finish db s tl h (some te) found e = (tl, some te, rw found, cached te found e)
finish db s tl h none found out = elim (Bool-cases (eq_ℤ (db s) (negsuc 0))) [
  | inl e ↦ (
    tl,
    none,
    rw (found, c_string-announced s h, e),
    unknown out ((eq_ℤ_iff (db s) (negsuc 0)).0 e),
  )
  | inr e ↦ (
    (add_torrent tl s (db s)).0,
    (add_torrent tl s (db s)).1,
    rw (found, c_string-announced s h, e),
    loaded _ out (λ d. missing e d) (refl, refl, refl, refl, refl, refl),
  )
]
  where
    missing : eq_ℤ (db s) (negsuc 0) ≡ false → db s ≡ negsuc 0 → ⊥
    missing e d = let t = (eq_ℤ_iff (db s) (negsuc 0)).1 d in cc

abbrev pub scraped : Bytes → Object
scraped s = cells s ++ (some 0 ∷ replicate (256 - length s) none)

memcmp_eq-unwritten :
    (s : Bytes) (n k q : ℕ)
    → length s + 1 < n
    → 1 < q
    → memcmp_eq n (cells s ++ (some 0 ∷ replicate k none)) (cells s ++ replicate q (some 0)) ≡ none
unfolding memcmp_eq
memcmp_eq-unwritten s zero k q h g = elim h [ ]
memcmp_eq-unwritten [] (suc zero) k q h g = absurd (omega arith)
memcmp_eq-unwritten [] (suc (suc n)) k zero h g = absurd (omega arith)
memcmp_eq-unwritten [] (suc (suc n)) zero (suc q) h g = refl
memcmp_eq-unwritten [] (suc (suc n)) (suc k) (suc q) h g = refl
memcmp_eq-unwritten (x ∷ s) (suc n) k q h g =
    rw (==_self x) (memcmp_eq-unwritten s n k q (omega arith) g)

-- On a list whose entries keep hashes, the lookup of an announced hash is always defined. It gives an
-- entry that has the hash and leaves the list alone; or, if no entry of the list has it, none with the
-- list as it was where the data base gives -1, and where it gives another number, a new entry without
-- peers, with the hash and that number as id, put in front of the list.
pub lookup_torrent_lem :
    (db : Bytes → ℤ) (s : Bytes) (tl : TorrentList)
    → IsHash s
    → AreHashed tl.list
    → (tl' : TorrentList) × (r : Option Torrent) × (lookup_torrent db (announced s) tl
        ≡ some (tl', r))
      × Looked db s tl tl' r
lookup_torrent_lem db s tl h a =
    let (r, found, hash) = do_lookup-total s tl.list h a in finish db s tl h r found hash

-- A scrape decodes a hash into an array that malloc gave: behind its NUL nothing is written. If the
-- list holds the torrent as its first entry, `memcmp` compares what was never written, and whether
-- the entry is found is undefined.
pub do_lookup-scraped :
    (s : Bytes) (te : Torrent) (ts : List Torrent)
    → IsHash s
    → length s + 1 < torrent_hash_len
    → te.info_hash ≡ stored s
    → do_lookup (scraped s) (te ∷ ts) ≡ none
unfolding do_lookup strncpy
do_lookup-scraped s te ts h short e = rw (
  e,
  take_all s torrent_hash_len (omega arith),
  memcmp_eq-unwritten s torrent_hash_len (256 - length s) (torrent_hash_len - length s)
      (omega arith) (omega arith),
)
