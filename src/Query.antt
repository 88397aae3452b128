-- ===== src/Query.antt =====
-- http.c: `http_parse_job_from_request` and `http_parse_query`, which split a request line into keys
-- and values. What is printed on the way is left out. The buffer holds the request, with a NUL
-- behind it.
pub mod Text
pub mod Line
pub mod Pairs
pub mod Total
pub mod Roundtrip
pub mod Keys
use ttracker.Base.{
  ℕ, zero, suc, ◌+◌, ◌-◌, ◌*◌, ◌<◌, Bool, true, false, ◌&&◌, ◌||◌, Option, none, some, List, [],
  ◌∷◌, ◌++◌, Bytes, codes, ltb, ◌==◌, if◌then◌else◌, ◌>>=◌, length, take, drop, bytes_eq,
}
use ttracker.Memory.{Object, write_at}
use ttracker.Buffer.{Buffer, object}
use ttracker.Build.{KeyVal}

-- JOB_T_ANNOUNCE and JOB_T_SCRAPE
pub data JobType : Type 0 where
  announce scrape : JobType

-- `strncmp(p, s, strlen(s)) == 0`, which reads up to the first difference.
unfoldable pub starts_with : Object → Bytes → Option Bool
starts_with m [] = some true
starts_with [] (c ∷ s) = none
starts_with (none ∷ m) (c ∷ s) = none
starts_with (some d ∷ m) (c ∷ s) = let rest = starts_with m s in if d == c then rest else some false

-- `none` inside for -1.
unfoldable pub parse_job : Buffer → Option (Option JobType)
parse_job input = starts_with (object input) (codes "GET /announce") >>= λ is_announce.
    if is_announce
    then some (some announce)
    else (starts_with (object input) (codes "GET /scrape") >>= λ is_scrape.
        some (if is_scrape then some scrape else none))

-- The loop that looks for the end of the line: `prev` is the char before the first of `m`, `i` its
-- index, and the last argument what is left of the length. 0 is `not found`.
unfoldable pub find_line : Option ℕ → Object → ℕ → ℕ → Option ℕ
find_line prev m i zero = some 0
find_line prev [] i (suc n) = none
find_line prev (none ∷ m) i (suc n) = none
find_line prev (some c ∷ m) i (suc n) =
    let rest = find_line (some c) m (i + 1) n in
    if c == b'\n'
    then elim prev [ none ↦ none | some d ↦ if d == b'\r' then some i else rest ]
    else rest

-- The loops that copy a key or a value: up to the char `stop`, the limit of the array, or the end of
-- what is scanned; with what is left.
unfoldable pub copy_until : ℕ → ℕ → Object → Option (Bytes × Object)
copy_until stop zero s = some ([], s)
copy_until stop (suc n) [] = some ([], [])
copy_until stop (suc n) (none ∷ s) = none
copy_until stop (suc n) (some c ∷ s) =
    let rest = copy_until stop n s in
    if c == stop then some ([], some c ∷ s) else (rest >>= λ r. some (c ∷ r.0, r.1))

-- The string that strncpy takes from a key or a value.
unfoldable pub up_to_nul : Bytes → Bytes
up_to_nul [] = []
up_to_nul (c ∷ s) = if c == 0 then [] else c ∷ up_to_nul s

abbrev pub is_empty : Bytes → Bool
is_empty [] = true
is_empty (c ∷ s) = false

-- HTTP_MAX_KEY_LEN-1 and HTTP_MAX_VAL_LEN-1
abbrev pub max_key : ℕ
max_key = 127

abbrev pub max_val : ℕ
max_val = 255

-- The second half of a round: the value behind a key, and what is left.
unfoldable pub read_val : Bytes → Object → Option (KeyVal × Object)
read_val key s = copy_until b'&' max_val s >>= λ v.
    some (record { key = up_to_nul key; val = up_to_nul v.0 }, drop 1 v.1)

-- One round of the `while` loop. Inside, `none` is a return of -1.
unfoldable pub read_pair : Object → Option (Option (KeyVal × Object))
read_pair s = copy_until b'=' max_key s >>= λ k.
    if is_empty k.0 then some none else (read_val k.0 (drop 1 k.1) >>= λ r. some (some r))

-- The `while` loop, on the chars from `i` up to the end of the line, with the list so far. The fuel
-- is the number of chars.
unfoldable pub parse_pairs : ℕ → Object → List KeyVal → Option (Option (List KeyVal))
parse_pairs f [] list = some (some list)
parse_pairs zero (c ∷ s) list = none
parse_pairs (suc f) (c ∷ s) list = read_pair (c ∷ s) >>= λ r. elim r [
  | none ↦ some none
  | some (np, rest) ↦ parse_pairs f rest (np ∷ list)
]

-- The entries with a key.
unfoldable pub count_key : Bytes → List KeyVal → ℕ
count_key key [] = 0
count_key key (np ∷ list) = (if bytes_eq key np.key then 1 else 0) + count_key key list

-- `found` after the loop over the keys that an announce wants.
unfoldable pub count_keys : List KeyVal → ℕ
unfolding count_key
count_keys list =
    count_key (codes "info_hash") list
    + count_key (codes "peer_id") list
    + count_key (codes "port") list
    + count_key (codes "uploaded") list
    + count_key (codes "downloaded") list
    + count_key (codes "left") list

unfoldable pub only_hashes : List KeyVal → Bool
only_hashes [] = true
only_hashes (np ∷ list) = bytes_eq (codes "info_hash") np.key && only_hashes list

-- The checks at the end.
unfoldable pub check_keys : JobType → List KeyVal → Option (List KeyVal)
check_keys announce list = if ltb (count_keys list) 6 then none else some list
check_keys scrape list = if only_hashes list then some list else none

abbrev pub check_list : JobType → Option (List KeyVal) → Option (List KeyVal)
check_list job none = none
check_list job (some list) = check_keys job list

-- Where the query starts.
abbrev pub query_start : JobType → ℕ
query_start announce = 14
query_start scrape = 12

-- From the index of the end of the line: the NUL behind the query, and the pairs.
unfoldable pub parse_line : Buffer → ℕ → JobType → Option (Buffer × Option (List KeyVal))
parse_line input found job = write_at (object input) (found - 10) (some 0 ∷ []) >>= λ m.
    parse_pairs (found - query_start job)
      (take (found - query_start job) (drop (query_start job) m)) []
    >>= λ pairs.
        some (record input { p = some m; cursor = input.cursor - 11 }, check_list job pairs)

-- The list is `none` where the function returns -1.
unfoldable pub parse_query : Buffer → JobType → Option (Buffer × Option (List KeyVal))
parse_query input job = find_line none (object input) 0 input.cursor >>= λ found.
    if found == 0 || ltb found 11
    then some (input, none)
    else (starts_with (drop (found - 9) (object input)) (codes "HTTP/1.1") >>= λ is_11.
        if is_11
        then parse_line input found job
        else (starts_with (drop (found - 9) (object input)) (codes "HTTP/1.0") >>= λ is_10.
            if is_10 then parse_line input found job else some (input, none)))
