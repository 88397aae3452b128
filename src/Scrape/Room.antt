-- ===== src/Scrape/Room.antt =====
-- The array that `_job_handle_scrape` allocates, and what is printed into it.
use ttracker.Base.{
  ℕ, ◌+◌, ◌*◌, ◌^◌, ◌<◌, ◌≤◌, ◌≡◌, ◌≢◌, refl, sym, ap, subst, ◌∙◌, Option, none, some, List, [],
  ◌∷◌, ◌++◌, Bytes, codes, arith, length, take, replicate, append_assoc, append-nil,
  length-replicate, length-take,
}
use ttracker.Base.Decimal.{digits}
use ttracker.Memory.{Object, cells}
use ttracker.Bencode.{Pairs, dict, end, pair, print, print_bytes, print_pairs}
use ttracker.Scrape.{
  ScrapeEntry, ScrapeContext, scan_hash, counts_text, print_entries, bencode_scrape_ctx,
}
use ttracker.Scrape.Printed.{IsPrinted, sprintf-IsPrinted}
use ttracker.Memory.Laws.{read_at_start}
use ttracker.Buffer.{Buffer}
use ttracker.Buffer.Growth.{IsValid}
use ttracker.Buffer.Contents.{Holds}
use ttracker.Buffer.Transfer.{write_to_buffer_lem}
use ttracker.Scrape.{write_scrape}
use ttracker.Scrape.Entries.{
  IsScan, AreEntries, counts, files, scrape_value, print-counts, scan_hash_lem, entry_text,
  print_entry_lem,
}

abbrev entries_text : List Bytes → List ScrapeEntry → Bytes
entries_text [] ses = []
entries_text (h ∷ hs) [] = []
entries_text (h ∷ hs) (se ∷ ses) = entry_text h se ++ entries_text hs ses

print_entries_lem :
    (scan : Object → Option ℕ) (hs : List Bytes) (ses : List ScrapeEntry) (cur : Object) {n : ℕ}
    {s : Bytes} {m : Object} {w : ℕ}
    → IsScan scan
    → IsPrinted n s m w
    → AreEntries hs ses
    → length cur ≡ 20
    → w + 100 * length ses + 1 ≤ n
    → (m' : Object) × (w' : ℕ) × (print_entries scan cur ses m w ≡ some (m', w'))
      × IsPrinted n (s ++ entries_text hs ses) m' w'
      × (w' ≤ w + 100 * length ses)
unfolding print_entries AreEntries
print_entries_lem scan [] [] cur {n} {s} {m} {w} ok v a c k =
    (m, w, refl, subst (λ t. IsPrinted n t m w) (sym (append-nil s)) v, omega arith)
print_entries_lem scan [] (se ∷ ses) cur ok v a c k = absurd a
print_entries_lem scan (h ∷ hs) [] cur ok v a c k = absurd a
print_entries_lem scan (h ∷ hs) (se ∷ ses) cur {n} {s} {m} {w} ok v a c k =
    let e = a.0 in
    let scanned =
      ap (λ o. scan_hash scan cur o) e.spelled
      ∙ scan_hash_lem scan cur e.rest h ok e.bytes (c ∙ sym e.whole) in
    let (m1, w1, r1, v1, l1) = print_entry_lem h se v e (omega (arith, k)) in
    let (m2, w2, r2, v2, l2) =
      print_entries_lem scan hs ses (replicate 20 (some 0)) ok v1 a.1 refl (omega (arith, k, l1)) in
    (
      m2,
      w2,
      rw (scanned, r1) r2,
      subst (λ t. IsPrinted n t m2 w2) (append_assoc s (entry_text h se) (entries_text hs ses)) v2,
      omega (arith, l1, l2),
    )

pub print-hash : (h : Bytes) → length h ≡ 20 → print_bytes h ≡ codes "20:" ++ h
unfolding digits
print-hash h e = ap (λ n. digits n ++ b':' ∷ h) e

print-entries :
    (hs : List Bytes) (ses : List ScrapeEntry)
    → AreEntries hs ses
    → print_pairs (files hs ses) ≡ entries_text hs ses
unfolding AreEntries print
print-entries [] [] a = refl
print-entries [] (se ∷ ses) a = absurd a
print-entries (h ∷ hs) [] a = absurd a
print-entries (h ∷ hs) (se ∷ ses) a =
    let rest = print (counts se) ++ print_pairs (files hs ses) in
    ap (λ k. k ++ rest) (print-hash h a.0.whole)
    ∙ ap (λ c. (codes "20:" ++ h) ++ (c ++ print_pairs (files hs ses))) (print-counts se)
    ∙ ap (λ r. (codes "20:" ++ h) ++ (counts_text se ++ r)) (print-entries hs ses a.1)
    ∙ sym (append_assoc (codes "20:" ++ h) (counts_text se) (entries_text hs ses))
    ∙ ap (λ t. t ++ entries_text hs ses) (append_assoc (codes "20:") h (counts_text se))

print-scrape :
    (hs : List Bytes) (ses : List ScrapeEntry)
    → AreEntries hs ses
    → (codes "d5:filesd" ++ entries_text hs ses) ++ codes "ee" ≡ print (scrape_value hs ses)
unfolding print digits
print-scrape hs ses a =
    ap (λ t. codes "d5:filesd" ++ (t ++ codes "ee")) (sym (print-entries hs ses a))
    ∙ ap (λ t. codes "d5:filesd" ++ t)
        (sym (append_assoc (print_pairs (files hs ses)) (codes "e") (codes "e")))
    ∙ ap (λ t. codes "d5:filesd" ++ (t ++ codes "e"))
        (sym (append-nil (print_pairs (files hs ses) ++ codes "e")))

-- For a context with at least one entry, each with a hash of 20 bytes and with counts that are ints,
-- the array of 128 chars for each entry is large enough: with an sscanf as documented, everything is
-- written inside of it, and the chars before the returned length are the dictionary of the files
-- with their counts, bencoded.
pub bencode_scrape_ctx_lem :
    (scan : Object → Option ℕ) (ctx : ScrapeContext) (hs : List Bytes)
    → IsScan scan
    → AreEntries hs ctx.list
    → ctx.size ≡ length ctx.list
    → 0 < ctx.size
    → (m : Object) × (w : ℕ) × (bencode_scrape_ctx scan ctx (replicate (128 * ctx.size) (some 0))
        ≡ some (m, w))
      × (w < 128 * ctx.size)
      × (length m ≡ 128 * ctx.size)
      × (take w m ≡ cells (print (scrape_value hs ctx.list)))
unfolding bencode_scrape_ctx
bencode_scrape_ctx_lem scan ctx hs ok a size some_entry =
    let n = 128 * ctx.size in
    let start : IsPrinted n [] (replicate n (some 0)) 0 = record {
      room = length-replicate n (some 0);
      size = refl;
      text = refl;
    } in
    let (m1, r1, v1) = sprintf-IsPrinted start (codes "d5:filesd") (omega (arith, some_entry)) in
    let (m2, w2, r2, v2, l2) =
      print_entries_lem scan hs ctx.list (replicate 20 none) ok v1 a refl
        (omega (arith, some_entry, size)) in
    let (m3, r3, v3) = sprintf-IsPrinted v2 (codes "ee") (omega (arith, l2, some_entry, size)) in
    (
      m3,
      w2 + 2,
      rw r1 (rw r2 (rw r3 refl)),
      omega (arith, l2, size, some_entry),
      v3.room,
      v3.text ∙ ap (λ t. cells t) (print-scrape hs ctx.list a),
    )

print-nonempty : (ps : Pairs) → cells (print (dict ps)) ≢ []
unfolding print
print-nonempty ps h = cc

-- The answer to such a context, of at most some 16 million entries, is that dictionary: a valid
-- buffer holds it then, and nothing else.
pub write_scrape_lem :
    (scan : Object → Option ℕ) (ctx : ScrapeContext) (hs : List Bytes) (out : Buffer)
    → IsScan scan
    → AreEntries hs ctx.list
    → ctx.size ≡ length ctx.list
    → 0 < ctx.size
    → IsValid out
    → out.size + 128 * ctx.size + 64 < 2 ^ 31
    → (out' : Buffer) × (write_scrape scan ctx out ≡ some out')
      × Holds (cells (print (scrape_value hs ctx.list))) out'
unfolding write_scrape
write_scrape_lem scan ctx hs out ok a size some_entry v k =
    let (m, w, r, l, room, text) = bencode_scrape_ctx_lem scan ctx hs ok a size some_entry in
    let read = read_at_start m w (omega (arith, l, room)) ∙ ap (λ t. some t) text in
    let short : length (cells (print (scrape_value hs ctx.list))) ≤ 128 * ctx.size =
      omega (arith, ap (λ t. length t) text, length-take w m, l) in
    let (out', e, h) =
      write_to_buffer_lem out (cells (print (scrape_value hs ctx.list))) v
        (print-nonempty (pair (codes "files") (dict (files hs ctx.list)) end))
        (omega (arith, k, short)) in
    (out', rw r (rw read (rw e refl)), h)
