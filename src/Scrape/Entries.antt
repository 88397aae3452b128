-- ===== src/Scrape/Entries.antt =====
-- The dictionary that answers a scrape, and one entry of it.
use ttracker.Base.{
  ℕ, suc, ◌+◌, ◌^◌, ◌<◌, ◌≤◌, ◌≡◌, refl, ap, subst, ◌∙◌, Option, none, some, List, [], ◌∷◌, ◌++◌,
  Bytes, codes, All, arith, length, length-append, append_assoc,
}
use ttracker.Base.Int.{ℤ, pos, negsuc, pos_part, neg_part}
use ttracker.Base.Decimal.{digits, print_int, length-digits-le}
use ttracker.Memory.{Object, cells}
use ttracker.Build.{hex_byte}
use ttracker.Build.Hash.{hex_text}
use ttracker.Bencode.{Value, Pairs, int, dict, end, pair, print}
use ttracker.Scrape.{ScrapeEntry, scan_hash, counts_text, print_entry}
use ttracker.Scrape.Printed.{IsPrinted, write_at-IsPrinted, sprintf-IsPrinted}

-- What sscanf documents of "%02hhx": two hexadecimal digits are read as the number they spell.
unfoldable pub IsScan : (Object → Option ℕ) → Type 0
IsScan scan = (c : ℕ) (m : Object) → c < 256 → scan (cells (hex_byte c) ++ m) ≡ some c

-- A C int.
abbrev pub IsInt : ℤ → Type 0
IsInt x = (pos_part x < 2 ^ 31) × (neg_part x ≤ 2 ^ 31)

-- An entry for the hash of 20 bytes that its text spells.
pub record IsEntry (h : Bytes) (se : ScrapeEntry) : Type 0 where
  pub whole : length h ≡ 20
  pub bytes : All (λ c. c < 256) h
  pub rest : Object
  pub spelled : se.info_hash ≡ cells (hex_text h) ++ rest
  pub seeders : IsInt se.seeders
  pub complete : IsInt se.complete
  pub leechers : IsInt se.leechers

unfoldable pub AreEntries : List Bytes → List ScrapeEntry → Type 0
AreEntries [] [] = Unit
AreEntries [] (se ∷ ses) = ⊥
AreEntries (h ∷ hs) [] = ⊥
AreEntries (h ∷ hs) (se ∷ ses) = IsEntry h se × AreEntries hs ses

-- The answer to a scrape, as the protocol has it.
abbrev pub counts : ScrapeEntry → Value
counts se = dict (
    pair (codes "complete") (int se.seeders) (
      pair (codes "downloaded") (int se.complete)
        (pair (codes "incomplete") (int se.leechers) end)))

abbrev pub files : List Bytes → List ScrapeEntry → Pairs
files [] ses = end
files (h ∷ hs) [] = end
files (h ∷ hs) (se ∷ ses) = pair h (counts se) (files hs ses)

abbrev pub scrape_value : List Bytes → List ScrapeEntry → Value
scrape_value hs ses = dict (pair (codes "files") (dict (files hs ses)) end)

pub print-counts : (se : ScrapeEntry) → print (counts se) ≡ counts_text se
unfolding print counts_text digits
print-counts se = simp append_assoc refl

int_short : (x : ℤ) → IsInt x → length (print_int x) ≤ 11
unfolding print_int
int_short (pos n) h = omega (arith, length-digits-le n 9 (omega (arith, h.0)))
int_short (negsuc n) h = omega (arith, length-digits-le (suc n) 9 (omega (arith, h.1)))

pub scan_hash_lem :
    (scan : Object → Option ℕ) (cur rest : Object) (h : Bytes)
    → IsScan scan
    → All (λ c. c < 256) h
    → length cur ≡ length h
    → scan_hash scan cur (cells (hex_text h) ++ rest) ≡ cells h
unfolding scan_hash IsScan
scan_hash_lem scan [] rest [] ok a e = refl
scan_hash_lem scan [] rest (c ∷ h) ok a e = absurd (omega (arith, e))
scan_hash_lem scan (x ∷ cur) rest [] ok a e = absurd (omega (arith, e))
scan_hash_lem scan (x ∷ cur) rest (c ∷ h) ok a e =
    let one = ok c (cells (hex_text h) ++ rest) a.0 in
    ap
      (λ o.
        (elim o [ none ↦ x | some v ↦ some v ]) ∷ scan_hash scan cur (cells (hex_text h) ++ rest))
      one
    ∙ ap (λ t. some c ∷ t) (scan_hash_lem scan cur rest h ok a.1 (omega (arith, e)))

abbrev pub entry_text : Bytes → ScrapeEntry → Bytes
entry_text h se = codes "20:" ++ (h ++ counts_text se)

counts_short : (h : Bytes) (se : ScrapeEntry) → IsEntry h se → length (counts_text se) ≤ 77
unfolding counts_text
counts_short h se v =
    let t = codes "e10:incompletei" ++ (print_int se.leechers ++ codes "ee") in
    let u = codes "e10:downloadedi" ++ (print_int se.complete ++ t) in
    omega (
      arith,
      int_short se.seeders v.seeders,
      int_short se.complete v.complete,
      int_short se.leechers v.leechers,
      length-append (print_int se.seeders) u,
      length-append (print_int se.complete) t,
      length-append (print_int se.leechers) (codes "ee"),
    )

pub print_entry_lem :
    {n : ℕ} {s : Bytes} {m : Object} {w : ℕ} (h : Bytes) (se : ScrapeEntry)
    → IsPrinted n s m w
    → IsEntry h se
    → w + 101 ≤ n
    → (m' : Object) × (w' : ℕ) × (print_entry se (cells h) m w ≡ some (m', w'))
      × IsPrinted n (s ++ entry_text h se) m' w'
      × (w' ≤ w + 100)
unfolding print_entry
print_entry_lem {n} {s} {m} {w} h se v e k =
    let c = counts_short h se e in
    let (m1, r1, v1) = sprintf-IsPrinted v (codes "20:") (omega (arith, k)) in
    let (m2, r2, v2) = write_at-IsPrinted v1 h (omega (arith, k, e.whole)) in
    let at : w + 3 + length h ≡ w + 3 + 20 = ap (λ l. w + 3 + l) e.whole in
    let v2' = subst (λ w. IsPrinted n ((s ++ codes "20:") ++ h) m2 w) at v2 in
    let (m3, r3, v3) = sprintf-IsPrinted v2' (counts_text se) (omega (arith, k, c)) in
    let same =
      append_assoc (s ++ codes "20:") h (counts_text se)
      ∙ append_assoc s (codes "20:") (h ++ counts_text se) in
    (
      m3,
      w + 3 + 20 + length (counts_text se),
      rw (r1) (rw r2 (rw r3 refl)),
      subst (λ t. IsPrinted n t m3 (w + 3 + 20 + length (counts_text se))) same v3,
      omega (arith, c),
    )
