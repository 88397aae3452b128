-- ===== src/Announce.antt =====
-- work.c: `_job_handle_announce`. The request is already built; the array that holds its hash, the
-- address of the client as `get_peer_info` prints it, and the address that `mk_peer` allocates are
-- given. The reply goes to the output buffer of the job, and the torrent that a pointer of the list
-- stands for is updated in place.
pub mod Ready
pub mod Quiet
pub mod Branches
pub mod Handler
use ttracker.Base.{
  ℕ, ◌^◌, ◌-◌, Bool, true, false, Option, none, some, List, [], ◌∷◌, Bytes, codes, ltb, ◌==◌,
  if◌then◌else◌, ◌>>=◌, take, bytes_eq,
}
use ttracker.Base.Int.{ℤ, pos, negsuc}
use ttracker.Memory.{Object, c_string}
use ttracker.Buffer.{Buffer}
use ttracker.Entry.{Peer, Torrent, TorrentList}
use ttracker.Torrent.{
  Action, null, stop, complete, lookup_torrent, search_peer, list_workon, list_jobdone,
  add_peer_and_return_list, update_peer_and_return_list, remove_peer,
}
use ttracker.Failure.{append, msg_failure_generic, msg_failure_missing_hash}
use ttracker.Request.{
  PeerReq, SanitizeError, info_hash, peer_id, port, downloaded, uploaded, left, event, accepted,
  rejected, sanitize_peer_req,
}

-- The `switch` on the error of the checks.
unfoldable pub error_message : SanitizeError → Bytes
error_message info_hash = codes "Corrupted hash"
error_message peer_id = codes "Invalid peer_id"
error_message port = codes "Invalid port"
error_message downloaded = codes "Invalid downloaded value"
error_message uploaded = codes "Invalid uploaded value"
error_message left = codes "Invalid left value"
error_message event = codes "Invalid event"

-- `strncmp(s, t, n) == 0`, of strings without their NULs.
abbrev pub strncmp_eq : Bytes → Bytes → ℕ → Bool
strncmp_eq s t n = bytes_eq (take n s) (take n t)

-- An `unsigned long long` as a `long`.
abbrev pub long_of_u64 : ℕ → ℤ
long_of_u64 n = if ltb n (2 ^ 63) then pos n else negsuc (2 ^ 64 - n - 1)

-- `pe`, and the copy of it at the address of `mk_peer`.
abbrev pub requesting : PeerReq → Bytes → ℕ → Peer
requesting req ip addr = record {
  addr = addr;
  peer_id = req.peer_id;
  port = req.port;
  ip = ip;
  left = long_of_u64 req.left;
}

-- The torrent at its address.
unfoldable pub store : Torrent → List Torrent → List Torrent
store te [] = []
store te (t ∷ ts) = let rest = store te ts in if t.addr == te.addr then te ∷ ts else t ∷ rest

-- What follows a new list of peers: the torrent is stored, `finish` is what is done to it after the
-- list, the removal lock is given back, and the list is appended.
unfoldable pub reply :
    (Torrent → Torrent) → TorrentList → Buffer → Torrent × Object → Option (TorrentList × Buffer)
reply finish tl out (te, peer_list) = c_string peer_list >>= λ s. append s out >>= λ out'.
    some (list_jobdone (record tl { list = store (finish te) tl.list }), out')

unfoldable pub announce_peer :
    TorrentList → Torrent → PeerReq → Peer → Buffer → Option (TorrentList × Buffer)
announce_peer tl torrent req pe out = elim (search_peer pe torrent.peers) [
  | none ↦
      if strncmp_eq req.event (codes "start") 4
      then (add_peer_and_return_list torrent pe >>= λ r. reply (λ t. t) tl out r)
      else some (list_jobdone tl, out)
  | some pp ↦
      if strncmp_eq req.event (codes "stop") 4
      then (update_peer_and_return_list torrent pp stop >>= λ r.
          reply (λ t. remove_peer t pp) tl out r)
      else if strncmp_eq req.event (codes "completed") 4
      then (update_peer_and_return_list torrent pp complete >>= λ r. reply (λ t. t) tl out r)
      else (update_peer_and_return_list torrent pp null >>= λ r. reply (λ t. t) tl out r)
]

-- The part behind the checks.
unfoldable pub announce_clean :
    (Bytes → ℤ) → PeerReq → Bytes → ℕ → TorrentList → Buffer → Option (TorrentList × Buffer)
announce_clean db req ip addr tl out = lookup_torrent db req.info_hash (list_workon tl) >>= λ r.
    elim (r.1) [
      | none ↦ msg_failure_missing_hash out >>= λ out'. some (list_jobdone r.0, out')
      | some torrent ↦ announce_peer r.0 torrent req (requesting req ip addr) out
    ]

unfoldable pub handle_announce :
    (Bytes → ℤ) → PeerReq → Bytes → ℕ → TorrentList → Buffer → Option (TorrentList × Buffer)
handle_announce db req ip addr tl out = sanitize_peer_req req >>= λ verdict. elim verdict [
  | accepted ↦ announce_clean db req ip addr tl out
  | rejected e ↦ msg_failure_generic out (error_message e) >>= λ out'. some (tl, out')
]
