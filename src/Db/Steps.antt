-- ===== src/Db/Steps.antt =====
-- The loop over the steps of a statement.
use ttracker.Base.{
  ℕ, zero, suc, ◌+◌, ◌<◌, ◌≤◌, ◌≡◌, ◌⊎◌, refl, sym, ap, ◌∙◌, true, Option, none, some, Bytes, codes,
  ltb, ◌>>=◌, length, drop, All-append, length-append, ◌≢◌, arith, ◌++◌, [], ◌∷◌,
}
use ttracker.Base.Int.{ℤ, negsuc}
use ttracker.Db.{
  StepResult, finished, failed, busy, other, row, step_loop, lookup_query, query_array,
  query_lookup_torrent,
}
use ttracker.Memory.{c_string}
use ttracker.Memory.Laws.{IsText, c_string-cells}
use ttracker.Memory.Printf.{sprintf_behind}

abbrev column : ℤ → StepResult → ℤ
column tid finished = tid
column tid failed = tid
column tid busy = tid
column tid other = tid
column tid (row v) = v

abbrev is_busy : StepResult → ℕ
is_busy finished = 0
is_busy failed = 0
is_busy busy = 1
is_busy other = 0
is_busy (row v) = 0

abbrev is_row : StepResult → ℕ
is_row finished = 0
is_row failed = 0
is_row busy = 0
is_row other = 1
is_row (row v) = 1

-- The value of the last row among the `n` steps from call `i` on, `tid` where there is none.
abbrev pub last_row : (ℕ → StepResult) → ℕ → ℕ → ℤ → ℤ
last_row step i zero tid = tid
last_row step i (suc n) tid = last_row step (i + 1) n (column tid (step i))

-- How many of the `n` steps from call `i` on are busy, and how many are neither that nor an end.
abbrev pub busies : (ℕ → StepResult) → ℕ → ℕ → ℕ
busies step i zero = 0
busies step i (suc n) = is_busy (step i) + busies step (i + 1) n

abbrev pub rows : (ℕ → StepResult) → ℕ → ℕ → ℕ
rows step i zero = 0
rows step i (suc n) = is_row (step i) + rows step (i + 1) n

-- Why the loop ends at call `i + n`.
abbrev pub Ends : (ℕ → StepResult) → ℕ → ℕ → ℕ → Type 0
Ends step i n tries =
    (step (i + n) ≡ finished) ⊎ (step (i + n) ≡ failed) ⊎ (busies step i n ≡ tries)

-- A run of the loop with its end.
Runs : (ℕ → StepResult) → ℕ → ℕ → ℤ → ℕ → ℕ → Type 0
Runs step f i tid tries k =
    (n : ℕ) × (step_loop step f i tid tries ≡ some (last_row step i n tid))
    × Ends step i n tries
    × (n ≤ k + tries)

lookup_query-IsText : (h : Bytes) → IsText h → IsText (lookup_query h)
unfolding lookup_query
lookup_query-IsText h t =
    All-append (λ c. c ≢ 0) (codes "select id from torrents where lower(info_hash) = lower('")
      (h ++ codes "')") (omega arith) (All-append (λ c. c ≢ 0) h (codes "')") t (omega arith))

length-query_array : length query_array ≡ 256
unfolding query_array
length-query_array = refl

-- A hash that fits the array of 256 chars is looked up with the statement as it is written.
query_lookup_torrent-prepared :
    (prepare : Bytes → Option (ℕ → StepResult)) (h : Bytes) (step : ℕ → StepResult) (fuel : ℕ)
    → IsText h
    → length h ≤ 197
    → prepare (lookup_query h) ≡ some step
    → query_lookup_torrent prepare fuel h ≡ step_loop step fuel 0 (negsuc 0) 10
unfolding query_lookup_torrent lookup_query
query_lookup_torrent-prepared prepare h step fuel t l e =
    let q = lookup_query h in
    let n : length q < length query_array =
      omega (arith, l, length-append h (codes "')"), length-query_array) in
    let printed = sprintf_behind [] q query_array (λ z. nil-cons (sym z)) n in
    let read =
      c_string-cells q (drop (length (drop 1 q) + 2) query_array) (lookup_query-IsText h t) in
    let run : Bytes → Option ℤ = λ query. elim (prepare query) as (λ _. Option ℤ) [
      | none ↦ some (negsuc 0)
      | some step ↦ step_loop step fuel 0 (negsuc 0) 10
    ] in
    ap (λ o. o >>= λ r. c_string r.0 >>= run) printed
    ∙ ap (λ o. o >>= run) read
    ∙ ap
        (λ o. elim o as (λ _. Option ℤ) [
          | none ↦ some (negsuc 0)
          | some step ↦ step_loop step fuel 0 (negsuc 0) 10
        ])
        e
  where
    nil-cons : {c : ℕ} {s : Bytes} → [] ≢ c ∷ s
    nil-cons h = cc

step_loop-stuck :
    (step : ℕ → StepResult) (f i : ℕ) (tid : ℤ) (tries : ℕ)
    → ((j : ℕ) → step j ≡ other)
    → step_loop step f i tid (suc tries) ≡ none
unfolding step_loop
step_loop-stuck step zero i tid tries h = refl
step_loop-stuck step (suc f) i tid tries h =
    let more : ltb 0 (suc tries) ≡ true = ground arith in
    rw (step_loop, h i, more) (step_loop-stuck step f (i + 1) tid tries h)

-- Where every step gives a code that is none of the four, SQLITE_MISUSE for instance, the lookup
-- does not return, whatever the fuel.
pub query_lookup_torrent-hangs :
    (prepare : Bytes → Option (ℕ → StepResult)) (h : Bytes) (step : ℕ → StepResult) (fuel : ℕ)
    → IsText h
    → length h ≤ 197
    → prepare (lookup_query h) ≡ some step
    → ((j : ℕ) → step j ≡ other)
    → query_lookup_torrent prepare fuel h ≡ none
query_lookup_torrent-hangs prepare h step fuel t l e odd =
    query_lookup_torrent-prepared prepare h step fuel t l e
    ∙ step_loop-stuck step fuel 0 (negsuc 0) 9 odd
