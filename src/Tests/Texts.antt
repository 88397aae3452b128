-- ===== src/Tests/Texts.antt =====
-- Bencoded values, and the refusals.
use ttracker.Base.{◌≡◌, refl, none, some, ◌++◌, codes, length, replicate, arith}
use ttracker.Base.Int.{pos, negsuc}
use ttracker.Base.Decimal.{print_int, digits}
use ttracker.Memory.{cells}
use ttracker.Memory.Printf.{rest_after}
use ttracker.Bencode.{Value, int, bytestring, list, dict, nil, cons, end, pair, print}
use ttracker.Entry.{Peer}
use ttracker.Bencode.Roundtrip.{Encodes}
use ttracker.Bencode.Encode.{bencode}
use ttracker.Bencode.Encode.Correct.{IsPlain, bencode_lem}

abbrev counts : Value
counts = dict (
    pair (codes "n") (int (negsuc 6))
      (pair (codes "l") (list (cons (bytestring (codes "ab")) nil)) end))

counts-print : print counts ≡ codes "d1:ni-7e1:ll2:abee"
unfolding print print_int digits
counts-print = refl

bencode_lem_example :
    (bencode counts (replicate 32 none) 0 (pos 32)
      ≡ some (
        cells (print counts) ++ rest_after (print counts) (replicate 32 none),
        pos (length (print counts)),
      ))
    × Encodes (print counts) counts
unfolding IsPlain print print_int digits
bencode_lem_example =
    bencode_lem counts (replicate 32 none) 32
      (
        (ground arith, (omega arith, tt)),
        (
          refl,
          (
            (ground arith, (omega arith, tt)),
            (((ground arith, (omega arith, (omega arith, tt))), tt), tt),
          ),
        ),
      )
      (omega arith) (omega arith)

abbrev neighbour : Peer
neighbour = record {
  addr = 4;
  peer_id = codes "-TR2940-k8hj0wgej6ch";
  port = pos 51413;
  ip = codes "10.0.0.7";
  left = pos 0;
}
