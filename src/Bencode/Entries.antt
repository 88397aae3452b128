-- ===== src/Bencode/Entries.antt =====
-- bncode.c: the entries of dictionaries, and the dictionary of a peer. A string in an array is read
-- up to its NUL, as `bencode` does with strlen.
use ttracker.Base.{
  ℕ, ◌-◌, ◌<◌, ◌≡◌, refl, ap, ◌∙◌, Option, none, some, List, [], ◌∷◌, ◌++◌, Bytes, codes, ◌>>=◌,
  length, replicate, arith, suc, take_all, append_assoc,
}
use ttracker.Base.Int.{ℤ}
use ttracker.Memory.{Object, strncpy, read_at, c_string, cells}
use ttracker.Memory.Laws.{IsText, c_string-cells}
use ttracker.Entry.{Peer}
use ttracker.Bencode.{Value, Pairs, int, bytestring, end, pair}

-- PEER_HASH_LEN
abbrev pub peer_hash_len : ℕ
peer_hash_len = 64

-- `data` with the type T_INT, T_BYTESTRING or another.
pub data EntryData : Type 0 where
  number : ℤ → EntryData
  text : Object → EntryData
  other : Value → EntryData

-- `struct benc_dict_entry`
pub record DictEntry : Type 0 where
  pub key : Object
  pub val : EntryData

-- `strncpy` into an array of one char more from xmalloc.
unfoldable pub copied : Bytes → Object
copied s = strncpy peer_hash_len s ++ none ∷ []

pub mk_dict_entry_int : Bytes → ℤ → DictEntry
mk_dict_entry_int key val = record { key = copied key; val = number val }

pub mk_dict_entry_string : Bytes → Bytes → DictEntry
mk_dict_entry_string key val = record { key = copied key; val = text (copied val) }

-- The key is copied by `memcpy`.
pub mk_dict_entry_kv : Object → EntryData → Option DictEntry
mk_dict_entry_kv key val =
    read_at key 0 peer_hash_len >>= λ m. some (record { key = m ++ none ∷ []; val = val })

-- LIST_INSERT_HEAD, three times.
pub init_peer : Peer → List DictEntry → List DictEntry
init_peer pt dict =
    mk_dict_entry_string (codes "ip") pt.ip
    ∷ mk_dict_entry_string (codes "peer_id") pt.peer_id
    ∷ mk_dict_entry_int (codes "port") pt.port
    ∷ dict

-- The values as they are read.
abbrev pub value_of : EntryData → Option Value
value_of (number n) = some (int n)
value_of (text m) = c_string m >>= λ s. some (bytestring s)
value_of (other v) = some v

unfoldable pub pairs_of : List DictEntry → Option Pairs
pairs_of [] = some end
pairs_of (e ∷ dict) =
    c_string e.key >>= λ k. value_of e.val >>= λ v. pairs_of dict >>= λ ps. some (pair k v ps)

c_string-copied : (s : Bytes) → IsText s → length s < peer_hash_len → c_string (copied s) ≡ some s
unfolding copied strncpy
c_string-copied s t h =
    let e : 64 - length s ≡ suc (63 - length s) = omega (arith, h) in
    let rest : Object = replicate (63 - length s) (some 0) in
    rw (take_all s 64 (omega (arith, h)), e)
      (ap (λ m. c_string m) (append_assoc (cells s) (some 0 ∷ rest) (none ∷ []))
        ∙ c_string-cells s (rest ++ none ∷ []) t)

-- The dictionary of a peer whose address and id have fewer than PEER_HASH_LEN chars reads, in front
-- of what the dictionary held, as the address, the id and the port, in the order of the keys.
pub init_peer_lem :
    (pt : Peer) (dict : List DictEntry) (ps : Pairs)
    → IsText pt.ip × (length pt.ip < peer_hash_len)
    → IsText pt.peer_id × (length pt.peer_id < peer_hash_len)
    → pairs_of dict ≡ some ps
    → pairs_of (init_peer pt dict)
      ≡ some (
          pair
            (codes "ip")
            (bytestring pt.ip)
            (pair (codes "peer_id") (bytestring pt.peer_id) (pair (codes "port") (int pt.port) ps)))
unfolding pairs_of init_peer c_string mk_dict_entry_string mk_dict_entry_int
init_peer_lem pt dict ps i p d =
    rw
      (
        c_string-copied (codes "ip") (omega arith) (omega arith),
        c_string-copied pt.ip i.0 i.1,
        c_string-copied (codes "peer_id") (omega arith) (omega arith),
        c_string-copied pt.peer_id p.0 p.1,
        c_string-copied (codes "port") (omega arith) (omega arith),
        d,
      )
      refl

read_at-past : (m : Object) (n : ℕ) → length m < n → read_at m 0 n ≡ none
unfolding read_at
read_at-past m n h = ground (arith, h)

-- An entry whose key is an array of fewer than PEER_HASH_LEN chars, as the literal for a short key
-- is, is made by a read past the end of that array, whatever its value.
pub mk_dict_entry_kv-short :
    (key : Object) (val : EntryData) → length key < peer_hash_len → mk_dict_entry_kv key val ≡ none
unfolding mk_dict_entry_kv
mk_dict_entry_kv-short key val h = rw (read_at-past key peer_hash_len h) refl
