-- ===== src/Db.antt =====
-- db.c: the lookup of a torrent and the connection. The calls of sqlite are parameters: `open_db
-- path` is what sqlite3_open gives, `prepare query` what a prepared statement gives at its i-th
-- step. The messages are left out, and so is sqlite3_finalize, whose result only chooses one.
pub mod Steps
use ttracker.Base.{
  ℕ, zero, suc, ◌+◌, ◌-◌, ◌*◌, Bool, true, false, Option, none, some, List, [], ◌∷◌, ◌++◌, Bytes,
  codes, ltb, ◌==◌, if◌then◌else◌, ◌>>=◌, replicate,
}
use ttracker.Base.Int.{ℤ, pos, negsuc}
use ttracker.Memory.{Object, sprintf, c_string}

-- The results of sqlite3_step: SQLITE_DONE, SQLITE_ERROR, SQLITE_BUSY, SQLITE_ROW with the column
-- that sqlite3_column_int reads then, and every other code.
pub data StepResult : Type 0 where
  finished failed busy other : StepResult
  row : ℤ → StepResult

-- The `while` loop, from call `i` of sqlite3_step. The fuel is the number of calls.
unfoldable pub step_loop : (ℕ → StepResult) → ℕ → ℕ → ℤ → ℕ → Option ℤ
step_loop step zero i tid maxtry = none
step_loop step (suc f) i tid maxtry =
    let after_busy = step_loop step f (i + 1) tid (maxtry - 1) in
    let after_other = step_loop step f (i + 1) tid maxtry in
    elim (step i) [
      | finished ↦ some tid
      | failed ↦ some tid
      | busy ↦ if ltb 0 maxtry then after_busy else some tid
      | other ↦ if ltb 0 maxtry then after_other else some tid
      | row v ↦
          let after_row = step_loop step f (i + 1) v maxtry in
          if ltb 0 maxtry then after_row else some tid
    ]

unfoldable pub lookup_query : Bytes → Bytes
lookup_query info_hash =
    codes "select id from torrents where lower(info_hash) = lower('" ++ (info_hash ++ codes "')")

-- `char query[256]`
unfoldable pub query_array : Object
query_array = replicate 256 none

-- `prepare` is none where sqlite3_prepare_v2 does not give SQLITE_OK.
unfoldable pub query_lookup_torrent : (Bytes → Option (ℕ → StepResult)) → ℕ → Bytes → Option ℤ
query_lookup_torrent prepare fuel info_hash =
    sprintf query_array 0 (lookup_query info_hash) >>= λ printed. c_string printed.0 >>= λ query.
    elim (prepare query) as (λ _. Option ℤ) [
      | none ↦ some (negsuc 0)
      | some step ↦ step_loop step fuel 0 (negsuc 0) 10
    ]

-- `db_connect`: G_DB and the result. sqlite3_open gives a handle, or none where it does not give
-- SQLITE_OK.
pub connect : (Bytes → Option ℕ) → Bytes → Option ℕ → Option ℕ × ℤ
connect open_db path g_db = elim (open_db path) [
  | none ↦ (g_db, negsuc 0)
  | some db ↦ (some db, pos 0)
]

-- `db_disconnect`: the handle that is passed to sqlite3_close, none where there is no such call, and
-- the result. G_DB stays as it is.
pub disconnect : Option ℕ → Option ℕ × ℤ
disconnect none = (none, negsuc 0)
disconnect (some db) = (some db, pos 0)
