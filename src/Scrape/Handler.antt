-- ===== src/Scrape/Handler.antt =====
-- `_job_handle_scrape`, the whole function, where each hash of the query is of a torrent of the data
-- base that is not in the list yet.
use ttracker.Base.{
  ℕ, ◌+◌, ◌*◌, ◌^◌, ◌<◌, ◌≡◌, ◌≢◌, refl, sym, ap, subst, ◌∙◌, Option, some, List, [], ◌∷◌, ◌++◌,
  Bytes, codes, All, arith, length, map, append-nil,
}
use ttracker.Base.Int.{ℤ, pos, ◌+ℤ◌, ◌-ℤ◌, int_laws}
use ttracker.Memory.{Object, cells}
use ttracker.Entry.{Torrent, TorrentList}
use ttracker.Torrent.{list_workon, list_jobdone}
use ttracker.Build.{KeyVal}
use ttracker.Build.Hash.{hex_text}
use ttracker.Buffer.{Buffer}
use ttracker.Buffer.Growth.{IsValid}
use ttracker.Buffer.Contents.{Holds}
use ttracker.Bencode.{Value, Pairs, int, dict, end, pair, print}
use ttracker.Scrape.{ScrapeEntry, start_ctx, handle_scrape}
use ttracker.Scrape.Entries.{IsScan, AreEntries, files}
use ttracker.Scrape.Room.{write_scrape_lem}
use ttracker.Scrape.Decoded.{
  onto, onto-onto, map-onto, length-onto, AreDecoded, hash_array, IsBytes, hash_list_lem,
}
use ttracker.Scrape.Collected.{AreOthers, IsNew, IsUnlisted, collect_lem}

-- The answer for torrents that nobody has announced.
abbrev pub new_files : List Bytes → Pairs
new_files [] = end
new_files (d ∷ ds) =
    pair d
      (dict (
        pair (codes "complete") (int (pos 0))
          (pair (codes "downloaded") (int (pos 0)) (pair (codes "incomplete") (int (pos 0)) end))))
      (new_files ds)

abbrev pub new_scrape : List Bytes → Value
new_scrape ds = dict (pair (codes "files") (dict (new_files ds)) end)

files-new :
    (ds : List Bytes) (ses : List ScrapeEntry)
    → AreEntries ds ses
    → All IsNew ses
    → files ds ses ≡ new_files ds
unfolding AreEntries
files-new [] ses a n = refl
files-new (d ∷ ds) [] a n = absurd a
files-new (d ∷ ds) (se ∷ ses) a ((s, c, l), n) = rw (s, c, l, files-new ds ses a.1 n) refl

length-entries :
    (ds : List Bytes) (ses : List ScrapeEntry) → AreEntries ds ses → length ses ≡ length ds
unfolding AreEntries
length-entries [] [] a = refl
length-entries [] (se ∷ ses) a = absurd a
length-entries (d ∷ ds) [] a = absurd a
length-entries (d ∷ ds) (se ∷ ses) a = ap ℕ.suc (length-entries ds ses a.1)

All-onto : (P : Bytes → Type 0) (ds es : List Bytes) → All P ds → All P es → All P (onto ds es)
All-onto P [] es h k = k
All-onto P (d ∷ ds) es (p, h) k = All-onto P ds (d ∷ es) h (p, k)

-- Each of the first is another hash than all of the second.
abbrev Differ : List Bytes → List Bytes → Type 0
Differ ds es = All (λ d. All (λ e. hex_text d ≢ hex_text e) es) ds

Differ-more :
    (d : Bytes) (ds es : List Bytes)
    → All (λ e. hex_text d ≢ hex_text e) ds
    → Differ ds es
    → Differ ds (d ∷ es)
Differ-more d [] es n h = tt
Differ-more d (e ∷ ds) es (n, ns) (h, hs) = ((λ q. n (sym q), h), Differ-more d ds es ns hs)

onto-AreOthers :
    (ds es : List Bytes) → AreOthers ds → AreOthers es → Differ ds es → AreOthers (onto ds es)
onto-AreOthers [] es a b c = b
onto-AreOthers (d ∷ ds) es (n, a) b (c, cs) =
    onto-AreOthers ds (d ∷ es) a (c, b) (Differ-more d ds es n cs)

Differ-none : (ds : List Bytes) → Differ ds []
Differ-none [] = tt
Differ-none (d ∷ ds) = (tt, Differ-none ds)

worked : (x : ℤ) → (x +ℤ pos 1) -ℤ pos 1 ≡ x
worked x = omega int_laws

-- `list` is the list of pairs that `http_parse_query` makes, which has the last pair of the query
-- first. For a scrape of at least one and at most some 16 million hashes that are different, each the
-- first twenty bytes of an unescaped value of that list, none of a torrent of the list and all of
-- torrents of the data base, with an sscanf as documented: the handler ends, the output buffer holds
-- the bencoded dictionary of the hashes in the order of `list`, so with the last hash of the query
-- first, each with zeros for its counts, and nothing else; the torrents, as many as there are hashes,
-- are in front of the torrents that were listed, and the lock is given back.
pub handle_scrape_lem :
    (db : Bytes → ℤ) (unescape : Bytes → Option Bytes) (scan : Object → Option ℕ)
    (list : List KeyVal) (ds : List Bytes) (tl : TorrentList) (out : Buffer)
    → IsScan scan
    → AreDecoded unescape list ds
    → 0 < length ds
    → AreOthers ds
    → All (IsUnlisted db tl.list) ds
    → IsValid out
    → out.size + 128 * length ds + 64 < 2 ^ 31
    → (tl' : TorrentList) × (out' : Buffer) × (added : List Torrent) × (handle_scrape db unescape
          scan list tl out
        ≡ some (tl', out'))
      × Holds (cells (print (new_scrape ds))) out'
      × (tl'.list ≡ added ++ tl.list)
      × (length added ≡ length ds)
      × (tl'.working ≡ tl.working)
unfolding handle_scrape start_ctx list_workon list_jobdone AreEntries
handle_scrape_lem db unescape scan list ds tl out ok dec some_hash others unlisted v k =
    let (hashes, bytes) = hash_list_lem unescape list ds [] dec in
    let back = onto ds [] in
    let turned : onto (map hash_array ds) [] ≡ map hash_array back =
      sym (map-onto hash_array ds []) in
    let (added, next, ctx, r, len, es, new, size) =
      collect_lem db back (list_workon tl) start_ctx [] (All-onto IsBytes ds [] bytes tt)
        (onto-AreOthers ds [] others tt (Differ-none ds))
        (All-onto (IsUnlisted db tl.list) ds [] unlisted tt) tt tt in
    let order : onto back [] ≡ ds = onto-onto ds [] [] ∙ append-nil ds in
    let entries = subst (λ hs. AreEntries hs ctx.list) order es in
    let n = length-onto ds [] in
    let (out', w, h) =
      write_scrape_lem scan ctx ds out ok entries
        (omega (arith, size, n, length-entries ds ctx.list entries))
        (omega (arith, size, n, some_hash)) v (omega (arith, size, n, k)) in
    (
      list_jobdone (record (list_workon tl) { list = added ++ tl.list; next = next }),
      out',
      added,
      rw (hashes, turned, r, w) refl,
      subst (λ p. Holds (cells (print (dict (pair (codes "files") (dict p) end)))) out')
          (files-new ds ctx.list entries new) h,
      refl,
      omega (arith, len, n),
      worked tl.working,
    )
