-- ===== src/Tests/Traffic.antt =====
-- What is read from a client and what is sent back.
use ttracker.Base.{
  ℕ, ◌+◌, ◌*◌, ◌-◌, ◌≡◌, ◌⊎◌, refl, Option, none, some, [], ◌∷◌, ◌++◌, Bytes, codes, arith,
  replicate, ltb, ◌==◌, if◌then◌else◌,
}
use ttracker.Base.Int.{pos}
use ttracker.Memory.{Object, cells}
use ttracker.Buffer.{Buffer, mk_buffer}
use ttracker.Buffer.Growth.{IsValid, mk_buffer-IsValid, contents}
use ttracker.Buffer.Contents.{Holds}
use ttracker.Bencode.{print}
use ttracker.Build.Hash.{hex_text}
use ttracker.Response.{Delivery, send, http_response}
use ttracker.Response.Head.{head_text}
use ttracker.Response.Sending.{IsWrite, IsComplete, IsFailed, send-terminates}
use ttracker.Response.Delivered.{Outcome, http_response_lem}
use ttracker.Receive.{Received, handle_read}
use ttracker.Receive.Any.{Left, handle_read-any}
use ttracker.Scrape.{ScrapeEntry, ScrapeContext, write_scrape}
use ttracker.Scrape.Entries.{IsScan, IsEntry, AreEntries, scrape_value}
use ttracker.Scrape.Room.{write_scrape_lem}

-- A socket that takes ten chars at a time, and none in its third call.
abbrev pub slow : ℕ → ℕ → Option ℕ
slow i n = if i == 2 then none else some (if ltb n 10 then n else 10)

pub slow-IsWrite : IsWrite slow
unfolding IsWrite
slow-IsWrite i count n h e = ground (arith, h, e)

send-terminates_example :
    (d : Delivery) × (send slow (cells (codes "HTTP/1.1 200 OK\r\n")) 17 22 0 0 5 [] ≡ some d)
    × (IsComplete (cells (codes "HTTP/1.1 200 OK\r\n")) 17 d
        ⊎ IsFailed slow (cells (codes "HTTP/1.1 200 OK\r\n")) 17 0 5 d)
send-terminates_example =
    send-terminates slow (cells (codes "HTTP/1.1 200 OK\r\n")) 17 slow-IsWrite (omega arith)
      (omega arith)

pub mk_buffer-Holds : Holds [] mk_buffer
unfolding mk_buffer
mk_buffer-Holds = record { valid = mk_buffer-IsValid; held = refl }

abbrev body : Buffer
body = record { p = some (cells (codes "de") ++ replicate 62 none); size = 64; cursor = 2 }

body-IsValid : IsValid body
body-IsValid = record { storage = refl; within = omega arith; small = omega arith; whole = refl }

http_response_lem_example :
    (d : Delivery) × (b' : Buffer) × (http_response slow mk_buffer body 200 ≡ some (d, b'))
    × IsValid b'
    × Outcome slow (cells (head_text 200 2) ++ contents body) d
unfolding mk_buffer
http_response_lem_example =
    http_response_lem slow mk_buffer body 200 slow-IsWrite mk_buffer-Holds body-IsValid
      (omega arith)

handle_read-any_example :
    (r : Received) × (b' : Buffer) × (handle_read slow
        (some (codes "GET /announce?port=1 HTTP/1.1\r\n"))
        mk_buffer
        mk_buffer
        mk_buffer
      ≡ some (r, b'))
    × Left slow r b'
unfolding mk_buffer
handle_read-any_example =
    handle_read-any slow (codes "GET /announce?port=1 HTTP/1.1\r\n") mk_buffer mk_buffer mk_buffer
      slow-IsWrite (omega arith) mk_buffer-Holds mk_buffer-Holds mk_buffer-Holds (omega arith)
      (omega arith)

-- sscanf of two hexadecimal digits.
abbrev hex_value : ℕ → ℕ
hex_value c = if ltb c 58 then c - 48 else c - 87

abbrev pub scan_two : Object → Option ℕ
scan_two (some c ∷ some d ∷ m) = some (hex_value c * 16 + hex_value d)
scan_two m = none

pub scan_two-IsScan : IsScan scan_two
unfolding IsScan
scan_two-IsScan c m h = ground (arith, h)

abbrev bytes_of_hash : Bytes
bytes_of_hash = codes "ABCDEFGHIJKLMNOPQRST"

abbrev scraped_entry : ScrapeEntry
scraped_entry = record {
  seeders = pos 1;
  leechers = pos 12;
  complete = pos 3;
  peer_count = pos 13;
  info_hash = cells (hex_text bytes_of_hash) ++ replicate 216 (some 0);
}

scraped_entry-IsEntry : IsEntry bytes_of_hash scraped_entry
scraped_entry-IsEntry = record {
  whole = refl;
  bytes = omega arith;
  rest = replicate 216 (some 0);
  spelled = refl;
  seeders = omega arith;
  complete = omega arith;
  leechers = omega arith;
}

abbrev context : ScrapeContext
context = record { list = scraped_entry ∷ []; size = 1 }

write_scrape_lem_example :
    (out' : Buffer) × (write_scrape scan_two context mk_buffer ≡ some out')
    × Holds (cells (print (scrape_value (bytes_of_hash ∷ []) (scraped_entry ∷ [])))) out'
unfolding mk_buffer AreEntries
write_scrape_lem_example =
    write_scrape_lem scan_two context (bytes_of_hash ∷ []) mk_buffer scan_two-IsScan
      (scraped_entry-IsEntry, tt) refl (omega arith) mk_buffer-IsValid (omega arith)
