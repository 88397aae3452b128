-- ===== src/Scrape/Collected.antt =====
-- The loop of `_job_handle_scrape` where each hash is of a torrent of the data base that is not in the
-- list yet.
use ttracker.Base.{
  ℕ, suc, ◌+◌, ◌≡◌, ◌≢◌, refl, sym, ap, ◌∙◌, false, some, List, [], ◌∷◌, ◌++◌, Bytes, All, arith,
  length, length-append, take, replicate, bytes_eq, bytes_eq_iff, map, append_assoc, Bool-cases,
  inl, inr, take_all, ◌-◌,
}
use ttracker.Base.Int.{ℤ, pos, negsuc}
use ttracker.Memory.{cells, strncpy}
use ttracker.Memory.Laws.{read_at_start}
use ttracker.Entry.{Torrent, TorrentList}
use ttracker.Torrent.{torrent_hash_len}
use ttracker.Torrent.Lookup.{stored}
use ttracker.Torrent.Scraped.{IsOther, lookup_torrent-scraped, length-stored}
use ttracker.Build.Hash.{hex_text, length-hex_text, hex_text-IsText}
use ttracker.Scrape.{ScrapeEntry, ScrapeContext, scrape_add_torrent, collect}
use ttracker.Scrape.Entries.{IsEntry, AreEntries}
use ttracker.Scrape.Decoded.{onto, hash_array, IsBytes}

-- Different hashes.
abbrev pub AreOthers : List Bytes → Type 0
AreOthers [] = Unit
AreOthers (d ∷ ds) = All (λ e. hex_text d ≢ hex_text e) ds × AreOthers ds

-- Nothing is counted.
abbrev pub IsNew : ScrapeEntry → Type 0
IsNew se = (se.seeders ≡ pos 0) × (se.complete ≡ pos 0) × (se.leechers ≡ pos 0)

-- The data base has the torrent of the hash, and the list does not.
abbrev pub IsUnlisted : (Bytes → ℤ) → List Torrent → Bytes → Type 0
IsUnlisted db ts d = All (IsOther (hex_text d)) ts × (db (hex_text d) ≢ negsuc 0)

bytes_eq-ne : (s t : Bytes) → s ≢ t → bytes_eq s t ≡ false
bytes_eq-ne s t n = elim (Bool-cases (bytes_eq s t)) [
  | inl e ↦ absurd (n ((bytes_eq_iff s t).0 e))
  | inr e ↦ e
]

hex-short : (d : Bytes) → length d ≡ 20 → length (hex_text d) ≡ 40
hex-short d l = omega (arith, length-hex_text d, l)

other_too :
    (db : Bytes → ℤ) (d : Bytes) (te : Torrent) (ts : List Torrent) (es : List Bytes)
    → length d ≡ 20
    → te.info_hash ≡ stored (hex_text d)
    → All IsBytes es
    → All (λ e. hex_text d ≢ hex_text e) es
    → All (IsUnlisted db ts) es
    → All (IsUnlisted db (te ∷ ts)) es
other_too db d te ts [] l h b n u = tt
other_too db d te ts (e ∷ es) l h (b, bs) (n, ns) ((o, k), us) = (
  (
    (
      (
        hex_text d,
        h,
        hex-short e b.0 ∙ sym (hex-short d l),
        bytes_eq-ne (hex_text e) (hex_text d) (λ q. n (sym q)),
      ),
      o,
    ),
    k,
  ),
  other_too db d te ts es l h bs ns us,
)

-- What the context gets for such a torrent.
add-IsNew :
    (ctx : ScrapeContext) (te : Torrent) (d : Bytes)
    → IsBytes d
    → te.info_hash ≡ stored (hex_text d)
    → (te.seeders ≡ pos 0) × (te.leechers ≡ pos 0) × (te.complete ≡ pos 0)
    → (se : ScrapeEntry) × (scrape_add_torrent ctx te
        ≡ some (record { list = se ∷ ctx.list; size = ctx.size + 1 }))
      × IsEntry d se
      × IsNew se
unfolding scrape_add_torrent strncpy
add-IsNew ctx te d (l, b) h (s, k, c) =
    let short = hex-short d l in
    let whole = length-stored (hex_text d) (omega (arith, short)) in
    let whole_te : length te.info_hash ≡ 256 = ap (λ m. length m) h ∙ whole in
    (
      record {
        seeders = te.seeders;
        leechers = te.leechers;
        complete = te.complete;
        peer_count = te.peer_count;
        info_hash = take torrent_hash_len te.info_hash;
      },
      rw (read_at_start te.info_hash torrent_hash_len (omega (arith, whole_te))) refl,
      record {
        whole = l;
        bytes = b;
        rest = replicate (torrent_hash_len - length (hex_text d)) (some 0);
        spelled =
            take_all te.info_hash torrent_hash_len (omega (arith, whole_te))
            ∙ h
            ∙ ap (λ t. cells t ++ replicate (torrent_hash_len - length (hex_text d)) (some 0))
                (take_all (hex_text d) torrent_hash_len (omega (arith, short)));
        seeders = rw s (omega arith, omega arith);
        complete = rw c (omega arith, omega arith);
        leechers = rw k (omega arith, omega arith);
      },
      (s, c, k),
    )

pub collect_lem :
    (db : Bytes → ℤ) (ds : List Bytes) (tl : TorrentList) (ctx : ScrapeContext) (hs : List Bytes)
    → All IsBytes ds
    → AreOthers ds
    → All (IsUnlisted db tl.list) ds
    → AreEntries hs ctx.list
    → All IsNew ctx.list
    → (added : List Torrent) × (next : ℕ) × (ctx' : ScrapeContext) × (collect db
          (map hash_array ds)
          tl
          ctx
        ≡ some (record tl { list = added ++ tl.list; next = next }, some ctx'))
      × (length added ≡ length ds)
      × AreEntries (onto ds hs) ctx'.list
      × All IsNew ctx'.list
      × (ctx'.size ≡ length ds + ctx.size)
unfolding collect AreEntries
collect_lem db [] tl ctx hs b n u e z = ([], tl.next, ctx, refl, refl, e, z, omega arith)
collect_lem db (d ∷ ds) tl ctx hs (b, bs) (n, ns) ((o, k), us) e z =
    let short = hex-short d b.0 in
    let (te, found, h, s, l, c) =
      lookup_torrent-scraped db (hex_text d) tl (hex_text-IsText d) (omega (arith, short)) o k in
    let (se, added, entry, new) = add-IsNew ctx te d b h (s, l, c) in
    let tl1 : TorrentList = record tl { list = te ∷ tl.list; next = suc tl.next } in
    let ctx1 : ScrapeContext = record { list = se ∷ ctx.list; size = ctx.size + 1 } in
    let (more, next, ctx', r, len, es, zs, size) =
      collect_lem db ds tl1 ctx1 (d ∷ hs) bs ns (other_too db d te tl.list ds b.0 h bs n us)
        (entry, e) (new, z) in
    (
      more ++ te ∷ [],
      next,
      ctx',
      rw (found, added, append_assoc more (te ∷ []) tl.list) r,
      omega (arith, len, length-append more (te ∷ [])),
      es,
      zs,
      omega (arith, size),
    )
