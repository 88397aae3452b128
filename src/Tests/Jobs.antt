-- ===== src/Tests/Jobs.antt =====
-- A job with an event that is not known.
use ttracker.Base.{◌≡◌, ◌++◌, refl, some, List, [], ◌∷◌, codes, arith, length, bytes_eq}
use ttracker.Base.Int.{pos}
use ttracker.Memory.{cells, sprintf, write_at, strncpy}
use ttracker.Buffer.{mk_buffer}
use ttracker.Build.{
  KeyVal, build_peer_req, lookup_kv_key, url_decode, print_hex, leading_digits, atoi, atoi_signed,
}
use ttracker.Request.{
  PeerReq, SanitizeError, rejected, sanitize_peer_req, sanitize_info_hash, all_graph, known_event,
  sanitize_fields,
}
use ttracker.Query.{announce}
use ttracker.Response.{Delivery}
use ttracker.Response.Head.{head_text}
use ttracker.Response.Delivered.{Outcome}
use ttracker.Torrent.Lookup.{announced}
use ttracker.Job.{request, handle_job}
use ttracker.Job.Rejected.{refusal, handle_job-rejected}
use ttracker.Tests.Torrents.{torrents}
use ttracker.Tests.Traffic.{slow, slow-IsWrite, mk_buffer-Holds, scan_two}

abbrev pausing : List KeyVal
pausing =
    record { key = codes "event"; val = codes "pause" }
    ∷ record { key = codes "left"; val = codes "9" }
    ∷ record { key = codes "uploaded"; val = codes "0" }
    ∷ record { key = codes "downloaded"; val = codes "0" }
    ∷ record { key = codes "port"; val = codes "6883" }
    ∷ record { key = codes "peer_id"; val = codes "new" }
    ∷ record { key = codes "info_hash"; val = codes "ABCDEFGHIJKLMNOPQRSTU" }
    ∷ []

abbrev pausing_req : PeerReq
pausing_req = record {
  downloaded = 0;
  uploaded = 0;
  left = 9;
  peer_id = codes "new";
  info_hash = announced (codes "4142434445464748494a4b4c4d4e4f5051525354");
  event = codes "pause";
  port = pos 6883;
}

pausing-built : build_peer_req (λ s. some s) pausing ≡ some pausing_req
unfolding build_peer_req lookup_kv_key url_decode print_hex leading_digits atoi atoi_signed bytes_eq
    sprintf write_at strncpy
pausing-built = refl

pausing-rejected : sanitize_peer_req pausing_req ≡ some (rejected SanitizeError.event)
unfolding sanitize_peer_req sanitize_info_hash sanitize_fields all_graph known_event bytes_eq
    strncpy
pausing-rejected = refl

handle_job-rejected_example :
    (d : Delivery) × (handle_job
        (λ _. pos 5)
        (λ s. some s)
        scan_two
        (codes "10.0.0.3")
        3
        slow
        mk_buffer
        (request announce pausing)
        torrents
        mk_buffer
      ≡ some (some d, torrents))
    × Outcome slow
        (cells (head_text 200 (length (refusal SanitizeError.event)))
          ++ cells (refusal SanitizeError.event))
        d
unfolding mk_buffer
handle_job-rejected_example =
    handle_job-rejected (λ _. pos 5) (λ s. some s) scan_two (codes "10.0.0.3") 3 slow pausing
      pausing_req SanitizeError.event torrents mk_buffer mk_buffer pausing-built pausing-rejected
      slow-IsWrite mk_buffer-Holds mk_buffer-Holds (omega arith) (omega arith)
