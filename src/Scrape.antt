-- ===== src/Scrape.antt =====
-- Scrapes: the context of torrent.c, `http_build_peer_req_hash_list` of http.c and
-- `_job_handle_scrape` of work.c. sscanf is a parameter: `scan m` is the char that "%02hhx" reads at
-- `m`, `none` where it reads none. The context and its list are freed on the way; no result depends
-- on that.
pub mod Printed
pub mod Entries
pub mod Room
pub mod Decoded
pub mod Collected
pub mod Handler
use ttracker.Base.{
  ℕ, zero, suc, ◌+◌, ◌*◌, Option, none, some, List, [], ◌∷◌, ◌++◌, Bytes, codes, ◌>>=◌, drop,
  replicate,
}
use ttracker.Base.Int.{ℤ}
use ttracker.Base.Decimal.{print_int}
use ttracker.Memory.{Object, Cell, sprintf, write_at, read_at}
use ttracker.Buffer.{Buffer, write_to_buffer}
use ttracker.Entry.{Torrent, TorrentList}
use ttracker.Torrent.{torrent_hash_len, lookup_torrent, list_workon, list_jobdone}
use ttracker.Failure.{msg_failure_missing_hash}
use ttracker.Build.{KeyVal, url_decode}

-- `struct scrapeentry_t` and `struct scrape_ctx`
pub record ScrapeEntry : Type 0 where
  pub seeders : ℤ
  pub leechers : ℤ
  pub complete : ℤ
  pub peer_count : ℤ
  pub info_hash : Object  -- 256 chars

pub record ScrapeContext : Type 0 where
  pub list : List ScrapeEntry
  pub size : ℕ

unfoldable pub start_ctx : ScrapeContext
start_ctx = record { list = []; size = 0 }

unfoldable pub scrape_add_torrent : ScrapeContext → Torrent → Option ScrapeContext
scrape_add_torrent ctx te = read_at te.info_hash 0 torrent_hash_len >>= λ info_hash. some (record {
  list =
      record {
        seeders = te.seeders;
        leechers = te.leechers;
        complete = te.complete;
        peer_count = te.peer_count;
        info_hash = info_hash;
      }
      ∷ ctx.list;
  size = ctx.size + 1;
})

-- The loop that reads a hash, on what is left of `cur_hash`. What is not read stays as it was.
unfoldable pub scan_hash : (Object → Option ℕ) → Object → Object → Object
scan_hash scan [] str = []
scan_hash scan (c ∷ cur) str =
    (elim (scan str) [ none ↦ c | some v ↦ some v ]) ∷ scan_hash scan cur (drop 2 str)

unfoldable pub counts_text : ScrapeEntry → Bytes
counts_text se =
    codes "d8:completei"
    ++ (print_int se.seeders
        ++ (codes "e10:downloadedi"
            ++ (print_int se.complete
                ++ (codes "e10:incompletei" ++ (print_int se.leechers ++ codes "ee")))))

-- One round, from `written` on, with the chars of `cur_hash`.
unfoldable pub print_entry : ScrapeEntry → Object → Object → ℕ → Option (Object × ℕ)
print_entry se hash p written = sprintf p written (codes "20:") >>= λ a.
    write_at a.0 (written + a.1) hash >>= λ p'.
    sprintf p' (written + a.1 + 20) (counts_text se) >>= λ b. some (b.0, written + a.1 + 20 + b.1)

-- The loop over the entries; `cur` is what `cur_hash` holds, which is cleared after each.
unfoldable pub print_entries :
    (Object → Option ℕ) → Object → List ScrapeEntry → Object → ℕ → Option (Object × ℕ)
print_entries scan cur [] p written = some (p, written)
print_entries scan cur (se ∷ list) p written =
    print_entry se (scan_hash scan cur se.info_hash) p written >>= λ r.
    print_entries scan (replicate 20 (some 0)) list r.0 r.1

unfoldable pub bencode_scrape_ctx :
    (Object → Option ℕ) → ScrapeContext → Object → Option (Object × ℕ)
bencode_scrape_ctx scan ctx out = sprintf out 0 (codes "d5:filesd") >>= λ a.
    print_entries scan (replicate 20 none) ctx.list a.0 a.1 >>= λ b.
    sprintf b.0 b.1 (codes "ee") >>= λ c. some (c.0, b.1 + c.1)

-- The hashes of the entries, the last one first, each in an array of 257 chars from xmalloc.
unfoldable pub hash_list : (Bytes → Option Bytes) → List KeyVal → List Object → Option (List Object)
hash_list unescape [] hashes = some hashes
hash_list unescape (np ∷ list) hashes =
    url_decode unescape (replicate 257 none) np.val >>= λ h. hash_list unescape list (h ∷ hashes)

-- The loop over the hashes: no context where a torrent is missing.
unfoldable pub collect :
    (Bytes → ℤ)
    → List Object
    → TorrentList
    → ScrapeContext
    → Option (TorrentList × Option ScrapeContext)
collect db [] tl sctx = some (tl, some sctx)
collect db (hash ∷ hashes) tl sctx = lookup_torrent db hash tl >>= λ r. elim (r.1) [
  | none ↦ some (r.0, none)
  | some torrent ↦ scrape_add_torrent sctx torrent >>= λ sctx'. collect db hashes r.0 sctx'
]

-- The answer to a scrape whose torrents are there.
unfoldable pub write_scrape : (Object → Option ℕ) → ScrapeContext → Buffer → Option Buffer
write_scrape scan sctx out =
    bencode_scrape_ctx scan sctx (replicate (128 * sctx.size) (some 0)) >>= λ b.
    read_at b.0 0 b.1 >>= λ src. write_to_buffer out src >>= λ r. some r.0

unfoldable pub handle_scrape :
    (Bytes → ℤ)
    → (Bytes → Option Bytes)
    → (Object → Option ℕ)
    → List KeyVal
    → TorrentList
    → Buffer
    → Option (TorrentList × Buffer)
handle_scrape db unescape scan list tl out = hash_list unescape list [] >>= λ hashes.
    collect db hashes (list_workon tl) start_ctx >>= λ r. elim (r.1) [
      | none ↦ msg_failure_missing_hash out >>= λ out'. some (list_jobdone r.0, out')
      | some sctx ↦ write_scrape scan sctx out >>= λ out'. some (list_jobdone r.0, out')
    ]
