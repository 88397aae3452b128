-- ===== src/Announce/Handler.antt =====
-- The whole announce handler, from the checks of the request to the reply.
use ttracker.Base.{
  ℕ, ◌<◌, ◌^◌, ◌≡◌, inl, inr, refl, sym, ap, subst, ◌∙◌, Option, none, some, List, [], ◌∷◌, ◌++◌,
  All, Bytes, codes, arith, length, ◌>>=◌, if◌then◌else◌, Bool-cases, Option-cases, ◌≢◌,
}
use ttracker.Base.Int.{ℤ, pos, negsuc, ◌+ℤ◌, ◌-ℤ◌, int_laws}
use ttracker.Memory.{Object, cells, memcmp_eq}
use ttracker.Memory.Laws.{IsText}
use ttracker.Buffer.{Buffer}
use ttracker.Buffer.Growth.{contents}
use ttracker.Buffer.Contents.{Holds}
use ttracker.Bencode.{print}
use ttracker.Entry.{Peer, Torrent, TorrentList}
use ttracker.Reply.Room.{IsBelow, IsSmall}
use ttracker.Torrent.{torrent_hash_len, do_lookup, lookup_torrent, list_workon, list_jobdone}
use ttracker.Torrent.Lookup.{
  IsHash, AreHashed, announced, stored, Looked, cached, unknown, loaded, lookup_torrent_lem,
}
use ttracker.Failure.{msg_failure_missing_hash}
use ttracker.Failure.Replies.{failure_value, msg_failure_generic_lem, msg_failure_missing_hash_lem}
use ttracker.Request.{PeerReq, SanitizeError, accepted, rejected, sanitize_peer_req}
use ttracker.Announce.{error_message, requesting, announce_peer, announce_clean, handle_announce}
use ttracker.Announce.Ready.{IsRoomy, IsTextual}
use ttracker.Announce.Quiet.{IsQuiet}
use ttracker.Announce.Branches.{Outcome, announce_peer_lem}

error_message-IsText :
    (e : SanitizeError) → IsText (error_message e) × (length (error_message e) < 100)
unfolding error_message
error_message-IsText SanitizeError.info_hash = (omega arith, omega arith)
error_message-IsText SanitizeError.peer_id = (omega arith, omega arith)
error_message-IsText SanitizeError.port = (omega arith, omega arith)
error_message-IsText SanitizeError.downloaded = (omega arith, omega arith)
error_message-IsText SanitizeError.uploaded = (omega arith, omega arith)
error_message-IsText SanitizeError.left = (omega arith, omega arith)
error_message-IsText SanitizeError.event = (omega arith, omega arith)

-- A request that the checks reject changes no torrent; its reply is the bencoded failure with the
-- message for the error.
pub handle_announce-rejected :
    (db : Bytes → ℤ) (req : PeerReq) (e : SanitizeError) (ip : Bytes) (addr : ℕ) (tl : TorrentList)
    (out : Buffer)
    → sanitize_peer_req req ≡ some (rejected e)
    → IsRoomy out
    → (out' : Buffer) × (handle_announce db req ip addr tl out ≡ some (tl, out'))
      × Holds (contents out ++ cells (print (failure_value (error_message e)))) out'
unfolding handle_announce
handle_announce-rejected db req e ip addr tl out s room =
    let (t, l) = error_message-IsText e in
    let (out', r, h) =
      msg_failure_generic_lem out (error_message e) room.0 t (omega (arith, l))
        (omega (arith, l, room.1)) in
    (out', rw (s, r) refl, h)

given_back : (n : ℤ) → n +ℤ pos 1 -ℤ pos 1 ≡ n
given_back n = grind int_laws

missed : {te : Torrent} → none ≢ some (some te)
missed h = cc

found : {t te : Torrent} → some (some t) ≡ some (some te) → t ≡ te
found h = cc

do_lookup-All {κ} :
    (P : Torrent → Type κ) (hash : Object) (ts : List Torrent) (te : Torrent)
    → All P ts
    → do_lookup hash ts ≡ some (some te)
    → P te
unfolding do_lookup
do_lookup-All P hash [] te a h = absurd (cc)
do_lookup-All P hash (t ∷ ts) te a h =
    elim (Option-cases (memcmp_eq torrent_hash_len hash t.info_hash)) [
      | inl n ↦ absurd (
          missed
            (ap (λ o. o >>= λ same. if same then some (some t) else do_lookup hash ts) (sym n) ∙ h))
      | inr (b, e) ↦
          let h' =
            ap (λ o. o >>= λ same. if same then some (some t) else do_lookup hash ts) (sym e) ∙ h in
          elim (Bool-cases b) [
            | inl c ↦
                subst P
                  (found (ap (λ x. if x then some (some t) else do_lookup hash ts) (sym c) ∙ h'))
                  a.0
            | inr c ↦
                do_lookup-All P hash ts te a.1
                  (ap (λ x. if x then some (some t) else do_lookup hash ts) (sym c) ∙ h')
          ]
    ]

-- What stands in the reply and in the list, for the hash `s`.
pub data Handled (db : Bytes → ℤ) (s : Bytes) (tl : TorrentList) (req : PeerReq) (pe : Peer)
    : List Torrent → Bytes → Type 0 where
  missing :
      All (λ t. t.info_hash ≢ stored s) tl.list
      → db s ≡ negsuc 0
      → Handled db s tl req pe tl.list
          (print (failure_value (codes "Missing \"info_hash\" parameter")))
  answered :
      (te : Torrent) (tl' : TorrentList) {ts : List Torrent} {text : Bytes}
      → te.info_hash ≡ stored s
      → Looked db s tl tl' (some te)
      → Outcome tl' te req.event pe ts text
      → Handled db s tl req pe ts text

empty-IsQuiet :
    (te : Torrent)
    → te.peers ≡ []
    → te.peer_count ≡ pos 0
    → te.seeders ≡ pos 0
    → te.leechers ≡ pos 0
    → IsQuiet te
empty-IsQuiet te p c s l = record {
  counted = c ∙ ap (λ ps. pos (length ps)) (sym p);
  seeders = subst (λ v. IsBelow 999 v) (sym s) (omega arith);
  leechers = subst (λ v. IsBelow 999 v) (sym l) (omega arith);
  peers = subst (λ ps. All IsSmall ps) (sym p) tt;
  textual = subst (λ ps. All IsTextual ps) (sym p) tt;
  few = subst (λ ps. length ps < 10 ^ 6) (sym p) (omega arith);
}

looked-IsQuiet :
    {db : Bytes → ℤ} {s : Bytes} {tl tl' : TorrentList} {te : Torrent}
    → All IsQuiet tl.list
    → Looked db s tl tl' (some te)
    → IsQuiet te × (te.info_hash ≡ stored s) × (tl'.working ≡ tl.working)
looked-IsQuiet {db} {s} {tl} q (cached te f e) =
    (do_lookup-All IsQuiet (announced s) tl.list te q f, e, refl)
looked-IsQuiet q (loaded te out d (e, i, p, c, se, le)) = (empty-IsQuiet te p c se le, e, refl)

looked-none :
    {db : Bytes → ℤ} {s : Bytes} {tl tl' : TorrentList}
    → Looked db s tl tl' none
    → (tl' ≡ tl) × All (λ t. t.info_hash ≢ stored s) tl.list × (db s ≡ negsuc 0)
looked-none (unknown out e) = (refl, out, e)

-- What follows the lookup.
abbrev Finished :
    (Bytes → ℤ)
    → Bytes
    → TorrentList
    → PeerReq
    → Peer
    → Buffer
    → Option (TorrentList × Buffer)
    → Type 0
Finished db s tl req pe out r =
    (tl' : TorrentList) × (text : Bytes) × (out' : Buffer) × (r ≡ some (tl', out'))
    × (tl'.working ≡ tl.working -ℤ pos 1)
    × Handled db s tl req pe tl'.list text
    × Holds (contents out ++ cells text) out'

after_lookup :
    (db : Bytes → ℤ) (s : Bytes) (req : PeerReq) (pe : Peer) (tl tl' : TorrentList) (out : Buffer)
    (r : Option Torrent)
    → All IsQuiet tl.list
    → IsSmall pe
    → IsTextual pe
    → IsRoomy out
    → Looked db s tl tl' r
    → Finished db s tl req pe out (elim r as (λ _. Option (TorrentList × Buffer)) [
      | none ↦ msg_failure_missing_hash out >>= λ out'. some (list_jobdone tl', out')
      | some torrent ↦ announce_peer tl' torrent req pe out
    ])
unfolding list_jobdone
after_lookup db s req pe tl tl' out none quiet small text room l =
    let (same, apart, e) = looked-none l in
    let (out', r, h) = msg_failure_missing_hash_lem out room.0 (omega (arith, room.1)) in
    (
      list_jobdone tl,
      _,
      out',
      rw r (ap (λ x. some (list_jobdone x, out')) same),
      refl,
      missing apart e,
      h,
    )
after_lookup db s req pe tl tl' out (some te) quiet small text room l =
    let (q, e, w) = looked-IsQuiet quiet l in
    let (ts, reply, out', r, o, h) = announce_peer_lem tl' te req pe out q small text room in
    (
      list_jobdone (record tl' { list = ts }),
      reply,
      out',
      r,
      ap (λ n. n -ℤ pos 1) w,
      answered te tl' e l o,
      h,
    )

-- An announce that passed the checks, with a hash, with a peer as the protocol has it and an output
-- buffer with room, is handled to its end, for a list whose torrents keep hashes and have counters
-- that can be counted up and peers as the protocol has them: the lock on the removal of torrents is
-- given back as often as it was taken. If no torrent of the list has the hash and the data base gives
-- -1 for it, the torrents stay as they were and the refusal is appended to the output buffer. Otherwise
-- there is a torrent with the hash, either of the list or, where none of the list has the hash and the
-- data base gives another number than -1, a new one, and what is appended is what Outcome has for it:
-- its list of peers, or nothing for an unlisted peer that does not start.
pub handle_announce_lem :
    (db : Bytes → ℤ) (s : Bytes) (req : PeerReq) (ip : Bytes) (addr : ℕ) (tl : TorrentList)
    (out : Buffer)
    → sanitize_peer_req req ≡ some accepted
    → IsHash s
    → req.info_hash ≡ announced s
    → AreHashed tl.list
    → All IsQuiet tl.list
    → IsSmall (requesting req ip addr)
    → IsTextual (requesting req ip addr)
    → IsRoomy out
    → (tl' : TorrentList) × (text : Bytes) × (out' : Buffer) × (handle_announce db req ip addr tl
          out
        ≡ some (tl', out'))
      × (tl'.working ≡ tl.working)
      × Handled db s (list_workon tl) req (requesting req ip addr) tl'.list text
      × Holds (contents out ++ cells text) out'
unfolding handle_announce announce_clean list_workon
handle_announce_lem db s req ip addr tl out ok hash same hashed quiet small text room =
    let (tl1, r, e, looked) = lookup_torrent_lem db s (list_workon tl) hash hashed in
    let (tl', reply, out', q, w, o, h) =
      after_lookup db s req (requesting req ip addr) (list_workon tl) tl1 out r quiet small text
        room looked in
    let e' = ap (λ m. lookup_torrent db m (list_workon tl)) same ∙ e in
    (tl', reply, out', rw (ok, announce_clean, e') q, w ∙ given_back tl.working, o, h)
