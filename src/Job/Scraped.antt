-- ===== src/Job/Scraped.antt =====
-- From a job to what the client gets, for a scrape of torrents that nobody has announced.
use ttracker.Base.{
  ℕ, ◌+◌, ◌*◌, ◌^◌, ◌<◌, ◌≤◌, ◌≡◌, refl, sym, ap, subst, ◌∙◌, Option, some, List, [], ◌∷◌, ◌++◌,
  Bytes, All, codes, length, length-append, arith,
}
use ttracker.Base.Int.{ℤ}
use ttracker.Base.Decimal.{digits, print_int}
use ttracker.Memory.{Object, cells}
use ttracker.Memory.Printf.{length-cells}
use ttracker.Buffer.{Buffer}
use ttracker.Buffer.Contents.{Holds}
use ttracker.Bencode.{print, print_pairs}
use ttracker.Entry.{Torrent, TorrentList}
use ttracker.Build.{KeyVal}
use ttracker.Query.{scrape}
use ttracker.Response.{Delivery, handle_write}
use ttracker.Response.Head.{head_text}
use ttracker.Response.Sending.{IsWrite}
use ttracker.Response.Delivered.{Outcome, filled, http_response_lem}
use ttracker.Scrape.Entries.{IsScan}
use ttracker.Scrape.Room.{print-hash}
use ttracker.Scrape.Decoded.{AreDecoded, IsBytes, hash_list_lem}
use ttracker.Scrape.Collected.{AreOthers, IsUnlisted}
use ttracker.Scrape.Handler.{new_files, new_scrape, handle_scrape_lem}
use ttracker.Job.{request, process_job, handle_job}

files_short :
    (ds : List Bytes) → All IsBytes ds → length (print_pairs (new_files ds)) ≤ 100 * length ds
unfolding print print_int digits
files_short [] b = omega arith
files_short (d ∷ ds) ((l, _), bs) =
    let rest = print_pairs (new_files ds) in
    rw (print-hash d l) (
      omega (
        arith,
        files_short ds bs,
        l,
        length-append d (codes "d8:completei0e10:downloadedi0e10:incompletei0ee" ++ rest),
      ))

pub scrape_short :
    (ds : List Bytes) → All IsBytes ds → length (print (new_scrape ds)) ≤ 100 * length ds + 20
unfolding print digits
scrape_short ds b =
    let text = print_pairs (new_files ds) in
    omega (
      arith,
      files_short ds b,
      length-append text (codes "e"),
      length-append (text ++ codes "e") [],
      length-append ((text ++ codes "e") ++ []) (codes "e"),
    )

-- A scrape as it is in the theorem on the handler is answered: with two empty buffers from the pool, of
-- sizes inside an int, and a `write` as documented, the client is sent a response with 200 and the
-- bencoded dictionary of the hashes with zeros, with the outcome of any response; the torrents are in
-- front of the list, which is unlocked as before.
pub handle_job-scrape :
    (db : Bytes → ℤ) (unescape : Bytes → Option Bytes) (scan : Object → Option ℕ) (ip : Bytes)
    (addr : ℕ) (write : ℕ → ℕ → Option ℕ) (list : List KeyVal) (ds : List Bytes) (tl : TorrentList)
    (c out : Buffer)
    → IsScan scan
    → IsWrite write
    → AreDecoded unescape list ds
    → 0 < length ds
    → AreOthers ds
    → All (IsUnlisted db tl.list) ds
    → Holds [] c
    → Holds [] out
    → out.size + c.size + 128 * length ds + 2000 < 2 ^ 31
    → (d : Delivery) × (tl' : TorrentList) × (added : List Torrent) × (handle_job db unescape scan
          ip addr write c
          (request scrape list)
          tl
          out
        ≡ some (some d, tl'))
      × Outcome write
          (cells (head_text 200 (length (print (new_scrape ds)))) ++ cells (print (new_scrape ds)))
          d
      × (tl'.list ≡ added ++ tl.list)
      × (length added ≡ length ds)
      × (tl'.working ≡ tl.working)
unfolding handle_job process_job handle_write
handle_job-scrape db unescape scan ip addr write list ds tl c out is ok dec some_hash others new hc
      ho k =
    let (_, bytes) = hash_list_lem unescape list ds [] dec in
    let (tl', out', added, r, h, e, n, w) =
      handle_scrape_lem db unescape scan list ds tl out is dec some_hash others new ho.valid
        (omega (arith, k)) in
    let text = print (new_scrape ds) in
    let size : out'.cursor ≡ length text = sym (filled out' _ h) ∙ length-cells text in
    let (d, c', t, _, o) =
      http_response_lem write c out' 200 ok hc h.valid
        (omega (arith, k, size, scrape_short ds bytes)) in
    (
      d,
      tl',
      added,
      rw (r, t) refl,
      subst (λ m. Outcome write m d)
          (ap (λ m. cells (head_text 200 out'.cursor) ++ m) h.held
            ∙ ap (λ n. cells (head_text 200 n) ++ cells text) size)
          o,
      e,
      n,
      w,
    )
