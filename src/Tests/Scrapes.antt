-- ===== src/Tests/Scrapes.antt =====
-- A scrape of two torrents.
use ttracker.Base.{
  ◌≡◌, ◌≢◌, refl, true, false, some, List, [], ◌∷◌, ◌++◌, Bytes, codes, length, arith, bytes_eq,
  bytes_eq_iff,
}
use ttracker.Base.Int.{pos}
use ttracker.Memory.{cells}
use ttracker.Entry.{Torrent, TorrentList}
use ttracker.Torrent.Lookup.{stored}
use ttracker.Build.{KeyVal}
use ttracker.Build.Hash.{hex_text}
use ttracker.Buffer.{Buffer, mk_buffer}
use ttracker.Buffer.Growth.{mk_buffer-IsValid}
use ttracker.Buffer.Contents.{Holds}
use ttracker.Bencode.{print}
use ttracker.Scrape.{handle_scrape}
use ttracker.Scrape.Collected.{AreOthers, IsUnlisted}
use ttracker.Scrape.Handler.{new_scrape, handle_scrape_lem}
use ttracker.Base.{All}
use ttracker.Query.{scrape}
use ttracker.Response.{Delivery}
use ttracker.Response.Head.{head_text}
use ttracker.Response.Delivered.{Outcome}
use ttracker.Job.{request, handle_job}
use ttracker.Job.Scraped.{handle_job-scrape}
use ttracker.Tests.Traffic.{slow, slow-IsWrite, mk_buffer-Holds, scan_two, scan_two-IsScan}

abbrev upper : Bytes
upper = codes "ABCDEFGHIJKLMNOPQRST"

abbrev lower : Bytes
lower = codes "abcdefghijklmnopqrst"

abbrev query : List KeyVal
query =
    record { key = codes "info_hash"; val = upper ++ codes "U" }
    ∷ record { key = codes "info_hash"; val = lower }
    ∷ []

-- The list has a torrent with another hash.
abbrev listed : Torrent
listed = record {
  addr = 1;
  peers = [];
  info_hash = stored (hex_text (codes "00000000000000000000"));
  id = pos 3;
  seeders = pos 0;
  leechers = pos 0;
  complete = pos 0;
  peer_count = pos 0;
}

abbrev one_torrent : TorrentList
one_torrent = record { working = pos 0; list = listed ∷ []; next = 2 }

hashes-AreOthers : AreOthers (upper ∷ lower ∷ [])
unfolding bytes_eq
hashes-AreOthers = ((not-same, tt), (tt, tt))
  where
    not-same : hex_text upper ≢ hex_text lower
    not-same q = let e : false ≡ true = (bytes_eq_iff (hex_text upper) (hex_text lower)).1 q in cc

hashes-IsUnlisted : All (IsUnlisted (λ _. pos 9) one_torrent.list) (upper ∷ lower ∷ [])
unfolding bytes_eq
hashes-IsUnlisted =
    let zero = hex_text (codes "00000000000000000000") in
    (
      (((zero, refl, refl, refl), tt), λ e. absurd (cc)),
      ((((zero, refl, refl, refl), tt), λ e. absurd (cc)), tt),
    )

handle_scrape_lem_example :
    (tl' : TorrentList) × (out' : Buffer) × (added : List Torrent) × (handle_scrape
        (λ _. pos 9)
        (λ s. some s)
        scan_two
        query
        one_torrent
        mk_buffer
      ≡ some (tl', out'))
    × Holds (cells (print (new_scrape (upper ∷ lower ∷ [])))) out'
    × (tl'.list ≡ added ++ listed ∷ [])
    × (length added ≡ 2)
    × (tl'.working ≡ pos 0)
unfolding mk_buffer
handle_scrape_lem_example =
    handle_scrape_lem (λ _. pos 9) (λ s. some s) scan_two query (upper ∷ lower ∷ []) one_torrent
      mk_buffer scan_two-IsScan
      (
        (upper ++ codes "U", refl, omega arith, refl, omega arith),
        ((lower, refl, omega arith, refl, omega arith), tt),
      )
      (omega arith) hashes-AreOthers hashes-IsUnlisted mk_buffer-IsValid (omega arith)

handle_job-scrape_example :
    (d : Delivery) × (tl' : TorrentList) × (added : List Torrent) × (handle_job
        (λ _. pos 9)
        (λ s. some s)
        scan_two
        (codes "10.0.0.3")
        3
        slow
        mk_buffer
        (request scrape query)
        one_torrent
        mk_buffer
      ≡ some (some d, tl'))
    × Outcome slow
        (cells (head_text 200 (length (print (new_scrape (upper ∷ lower ∷ [])))))
          ++ cells (print (new_scrape (upper ∷ lower ∷ []))))
        d
    × (tl'.list ≡ added ++ listed ∷ [])
    × (length added ≡ 2)
    × (tl'.working ≡ pos 0)
unfolding mk_buffer
handle_job-scrape_example =
    handle_job-scrape (λ _. pos 9) (λ s. some s) scan_two (codes "10.0.0.3") 3 slow query
      (upper ∷ lower ∷ []) one_torrent mk_buffer mk_buffer scan_two-IsScan slow-IsWrite
      (
        (upper ++ codes "U", refl, omega arith, refl, omega arith),
        ((lower, refl, omega arith, refl, omega arith), tt),
      )
      (omega arith) hashes-AreOthers hashes-IsUnlisted mk_buffer-Holds mk_buffer-Holds (omega arith)
