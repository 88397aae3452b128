-- ===== src/Job.antt =====
-- work.c: `work_process_job`, and main.c: a round of the loop of `handle_jobs` up to `job_complete`,
-- with the announces and scrapes of their modules. `ip` and `addr` are what `get_peer_info` and the
-- allocator give.
pub mod Rejected
pub mod Scraped
use ttracker.Base.{ℕ, Option, none, some, List, Bytes, ◌>>=◌}
use ttracker.Base.Int.{ℤ}
use ttracker.Memory.{Object}
use ttracker.Buffer.{Buffer}
use ttracker.Entry.{TorrentList}
use ttracker.Build.{KeyVal, build_peer_req}
use ttracker.Query.{JobType, announce, scrape}
use ttracker.Announce.{handle_announce}
use ttracker.Scrape.{handle_scrape}
use ttracker.Response.{Delivery, handle_write}

-- A job of the queue; JOB_T_STOP carries nothing.
pub data Job : Type 0 where
  stop : Job
  request : JobType → List KeyVal → Job

module _ (db : Bytes → ℤ) (unescape : Bytes → Option Bytes) (scan : Object → Option ℕ) (ip : Bytes)
    (addr : ℕ) where
  -- The result is `none` inside for JOB_T_STOP.
  unfoldable pub process_job :
      Job → TorrentList → Buffer → Option (Option JobType × TorrentList × Buffer)
  process_job (request announce list) tl out = build_peer_req unescape list >>= λ req.
      handle_announce db req ip addr tl out >>= λ r. some (some announce, r.0, r.1)
  process_job (request scrape list) tl out =
      handle_scrape db unescape scan list tl out >>= λ r. some (some scrape, r.0, r.1)
  process_job stop tl out = some (none, tl, out)

  -- A round, with the buffer `c` for the response: what was delivered, `none` inside where the
  -- thread stops.
  unfoldable pub handle_job :
      (ℕ → ℕ → Option ℕ)
      → Buffer
      → Job
      → TorrentList
      → Buffer
      → Option (Option Delivery × TorrentList)
  handle_job write c job tl out = process_job job tl out >>= λ r. elim (r.0) [
    | none ↦ some (none, r.1)
    | some job_t ↦ handle_write write c r.2 >>= λ d. some (some d.0, r.1)
  ]
