-- ===== src/Tests/Queries.antt =====
-- Requests as they come from the socket, their keys, and the data base behind them.
use ttracker.Base.{
  ℕ, zero, suc, ◌+◌, ◌≤◌, ◌≡◌, ◌≢◌, refl, none, some, List, [], ◌∷◌, ◌++◌, All, Bytes, codes, arith,
  length, bytes_eq,
}
use ttracker.Base.Int.{pos}
use ttracker.Memory.{cells}
use ttracker.Buffer.{Buffer}
use ttracker.Build.{KeyVal, build_peer_req}
use ttracker.Query.{announce, parse_job, parse_query, check_keys, count_key}
use ttracker.Query.Line.{Contains, after_line}
use ttracker.Query.Pairs.{Inside, IsPair, print_query, reversed_onto}
use ttracker.Query.Roundtrip.{request_text, line_end, parse_query-print}
use ttracker.Query.Keys.{wanted, check_keys-repeated}
use ttracker.Db.{StepResult, finished, busy, other, row, query_lookup_torrent}
use ttracker.Db.Steps.{query_lookup_torrent-hangs}

abbrev pairs : List KeyVal
pairs =
    record { key = codes "info_hash"; val = codes "%aa" }
    ∷ record { key = codes "peer_id"; val = codes "me" }
    ∷ record { key = codes "port"; val = codes "81" }
    ∷ record { key = codes "uploaded"; val = codes "0" }
    ∷ record { key = codes "downloaded"; val = codes "0" }
    ∷ record { key = codes "left"; val = codes "5" }
    ∷ []

-- A pair of ordinary chars.
chars-IsPair :
    (c : ℕ) (k v : Bytes)
    → (length (c ∷ k) ≤ 127) × (length v ≤ 245) × All (Inside b'=') (c ∷ k) × All (Inside b'&') v
    → IsPair (record { key = c ∷ k; val = v })
chars-IsPair c k v (sk, sv, ck, cv) = record {
  some_key = λ h. cons-nil h;
  short_key = sk;
  short_val = sv;
  key_chars = ck;
  val_chars = cv;
}
  where
    cons-nil : c ∷ k ≢ []
    cons-nil h = cc

pairs-IsPair : All IsPair pairs
pairs-IsPair = (
  chars-IsPair _ _ _ (omega arith),
  (
    chars-IsPair _ _ _ (omega arith),
    (
      chars-IsPair _ _ _ (omega arith),
      (
        chars-IsPair _ _ _ (omega arith),
        (chars-IsPair _ _ _ (omega arith), (chars-IsPair _ _ _ (omega arith), tt)),
      ),
    ),
  ),
)

abbrev line : Bytes
line = request_text announce pairs (codes "\r\n")

abbrev received : Buffer
received = record {
  p = some (cells line ++ some 0 ∷ []);
  size = length line + 1;
  cursor = length line;
}

received-Contains : Contains received line
unfolding print_query
received-Contains = record { rest = []; stored = refl; filled = refl; plain = omega arith }

parse_query-print_example :
    (parse_job received ≡ some (some announce))
    × (parse_query received announce
        ≡ some (
          after_line received line (line_end announce pairs) received-Contains,
          check_keys announce (reversed_onto pairs []),
        ))
parse_query-print_example =
    parse_query-print received announce pairs (codes "\r\n") (λ h. cc) pairs-IsPair
      received-Contains

pairs-once : All (λ key. count_key key pairs ≤ 1) wanted
unfolding count_key bytes_eq
pairs-once = omega arith

-- Six entries with the key `port` and different values.
abbrev six_ports : List KeyVal
six_ports =
    record { key = codes "port"; val = codes "1" }
    ∷ record { key = codes "port"; val = codes "2" }
    ∷ record { key = codes "port"; val = codes "3" }
    ∷ record { key = codes "port"; val = codes "4" }
    ∷ record { key = codes "port"; val = codes "5" }
    ∷ record { key = codes "port"; val = [] }
    ∷ []

check_keys-repeated_example :
    (check_keys announce six_ports ≡ some six_ports)
    × (build_peer_req (λ s. some s) six_ports ≡ none)
check_keys-repeated_example =
    check_keys-repeated (λ s. some s) six_ports (omega arith)
      (refl, (refl, (refl, (refl, (refl, (refl, tt))))))

-- A statement that is busy once and then has one row.
abbrev steps : ℕ → StepResult
steps zero = busy
steps (suc zero) = row (pos 7)
steps (suc (suc n)) = finished

query_lookup_torrent-hangs_example :
    query_lookup_torrent (λ q. some (λ j. other)) 100 (codes "0f") ≡ none
query_lookup_torrent-hangs_example =
    query_lookup_torrent-hangs (λ q. some (λ j. other)) (codes "0f") (λ j. other) 100 (omega arith)
      (omega arith) refl (λ j. refl)
