-- ===== src/Bencode/Encode.antt =====
-- bncode.h and bncode.c: bencoding into a char array. `m` is the array and `out` the offset of the
-- pointer in it, which is never NULL; the result has the array and the `int` that is returned.
pub mod Pieces
pub mod Correct
use ttracker.Base.{
  ℕ, suc, ◌+◌, ◌-◌, ◌≡◌, Bool, Option, none, some, List, [], ◌∷◌, ◌++◌, Bytes, codes, leb,
  if◌then◌else◌, ◌>>=◌, length, take, drop, replicate,
}
use ttracker.Base.Int.{ℤ, pos, negsuc, ◌+ℤ◌, ◌-ℤ◌, leb_ℤ, u64_of_int, int_of_u64}
use ttracker.Base.Decimal.{print_int}
use ttracker.Memory.{Object, snprintf, c_string, cells}
use ttracker.Bencode.{
  Value, Values, Pairs, int, bytestring, list, dict, unknown, nil, cons, end, pair,
}

-- The `(int)` of a `long`.
abbrev pub int_of_long : ℤ → ℤ
int_of_long n = int_of_u64 (u64_of_int n)

-- `return strlen(output)`.
abbrev pub strlen_at : ℕ → Object × ℕ → Option (Object × ℤ)
strlen_at out r = c_string (drop out r.0) >>= λ s. some (r.0, pos (length s))

pub encode_bytes : Bytes → ℤ → Object → ℕ → ℤ → Option (Object × ℤ)
encode_bytes input len m out out_size =
    if leb_ℤ len (pos 0)
    then some (m, negsuc 0)
    else (snprintf m out (u64_of_int out_size) (print_int len ++ (b':' ∷ input)) >>= strlen_at out)

pub encode_int : ℤ → Object → ℕ → ℤ → Option (Object × ℤ)
encode_int input m out out_size =
    snprintf m out (u64_of_int out_size) (b'i' ∷ (print_int input ++ b'e' ∷ [])) >>= strlen_at out

-- `out + count`.
abbrev pub shift : ℕ → ℤ → Option ℕ
shift out (pos n) = some (out + n)
shift out (negsuc n) = if leb (suc n) out then some (out - suc n) else none

-- The bracket that opens a list or dictionary, which gives the first `count`.
pub open_with : Bytes → Object → ℕ → ℤ → Option (Object × ℤ)
open_with c m out out_size = snprintf m out (u64_of_int out_size) c >>= λ r. some (r.0, pos r.1)

-- `count += snprintf(out+count, out_size-count, "e")`.
pub close : ℕ → ℤ → Object × ℤ → Option (Object × ℤ)
close out out_size (m, count) = shift out count >>= λ o.
    snprintf m o (u64_of_int (out_size -ℤ count)) (codes "e") >>= λ r. some (r.0, count +ℤ pos r.1)

-- `count += f(…, out+count, out_size-count)`.
pub add_to : ℕ → ℤ → Object × ℤ → (Object → ℕ → ℤ → Option (Object × ℤ)) → Option (Object × ℤ)
add_to out out_size (m, count) f =
    shift out count >>= λ o. f m o (out_size -ℤ count) >>= λ r. some (r.0, count +ℤ r.1)

unfoldable mutual
  unfolding open_with close add_to

  pub bencode : Value → Object → ℕ → ℤ → Option (Object × ℤ)
  bencode (int n) m out out_size = encode_int (int_of_long n) m out out_size
  bencode (bytestring s) m out out_size = encode_bytes s (pos (length s)) m out out_size
  bencode (list vs) m out out_size = open_with (codes "l") m out out_size >>= λ r.
      bencode_list vs out out_size r >>= λ q. close out out_size q
  bencode (dict ps) m out out_size = open_with (codes "d") m out out_size >>= λ r.
      bencode_dict ps out out_size r >>= λ q. close out out_size q
  bencode unknown m out out_size = some (m, pos 0)

  -- The loop over the entries of a list, from a `count` of chars.
  pub bencode_list : Values → ℕ → ℤ → Object × ℤ → Option (Object × ℤ)
  bencode_list nil out out_size r = some r
  bencode_list (cons v vs) out out_size r =
      add_to out out_size r (bencode v) >>= λ q. bencode_list vs out out_size q

  -- The loop over the entries of a dictionary.
  bencode_dict : Pairs → ℕ → ℤ → Object × ℤ → Option (Object × ℤ)
  bencode_dict end out out_size r = some r
  bencode_dict (pair k v ps) out out_size r =
      add_to out out_size r (encode_bytes k (pos (length k))) >>= λ p.
      add_to out out_size p (bencode v) >>= λ q. bencode_dict ps out out_size q
