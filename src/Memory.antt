-- ===== src/Memory.antt =====
-- C memory objects: arrays of char, with the library calls that the program makes on them.
pub mod Laws
pub mod Printf
use ttracker.Base.{
  ℕ, zero, suc, Bool, true, false, ◌+◌, ◌-◌, ◌≤◌, ◌≡◌, refl, Option, none, some, List, [], ◌∷◌,
  ◌++◌, map, Bytes, leb, ◌==◌, if◌then◌else◌, ◌>>=◌, length, take, drop, replicate, arith,
}

-- A char of an object; `none` is a byte that was never written.
abbrev pub Cell : Type 0
Cell = Option ℕ

abbrev pub Object : Type 0
Object = List Cell

-- `memcpy(dst + off, src, n)`, with the `n` cells of the source. Past the end it is undefined.
unfoldable pub write_at : Object → ℕ → Object → Option Object
write_at m off src =
    if leb (off + length src) (length m)
    then some (take off m ++ (src ++ drop (off + length src) m))
    else none

-- The `n` cells from `off` on.
unfoldable pub read_at : Object → ℕ → ℕ → Option Object
read_at m off n = if leb (off + n) (length m) then some (take n (drop off m)) else none

-- `realloc(p, n)`: the old cells, and past them cells that hold nothing yet.
unfoldable pub realloc : Object → ℕ → Object
realloc m n = take n m ++ replicate (n - length m) none

-- The string that starts an object: its bytes up to the first NUL.
unfoldable pub c_string : Object → Option Bytes
c_string [] = none
c_string (none ∷ m) = none
c_string (some c ∷ m) =
    let rest = c_string m in
    if c == 0 then some [] else elim rest [ none ↦ none | some s ↦ some (c ∷ s) ]

-- The cells of a string, without its NUL.
abbrev pub cells : Bytes → Object
cells s = map some s

-- `snprintf(p + off, n, …)` where the format makes `text`: as much of it as fits before a NUL in `n`
-- chars, and the length of all of it.
unfoldable pub snprintf : Object → ℕ → ℕ → Bytes → Option (Object × ℕ)
snprintf m off n text =
    if n == 0
    then some (m, length text)
    else (write_at m off (cells (take (n - 1) text) ++ some 0 ∷ []) >>= λ m'.
        some (m', length text))

-- `sprintf(p + off, …)`: the text and a NUL, whatever room there is.
unfoldable pub sprintf : Object → ℕ → Bytes → Option (Object × ℕ)
sprintf m off text = write_at m off (cells text ++ some 0 ∷ []) >>= λ m'. some (m', length text)

-- `memcmp(a, b, n) == 0`: known as soon as two chars differ, and otherwise only if all are written.
unfoldable pub memcmp_eq : ℕ → Object → Object → Option Bool
memcmp_eq zero a b = some true
memcmp_eq (suc n) (some x ∷ a) (some y ∷ b) =
    let rest = memcmp_eq n a b in if x == y then rest else some false
memcmp_eq (suc n) (none ∷ a) b = none
memcmp_eq (suc n) (some x ∷ a) (none ∷ b) = none
memcmp_eq (suc n) (some x ∷ a) [] = none
memcmp_eq (suc n) [] b = none

-- `strncpy(dst, s, n)` into a fresh array of `n` chars: the string, padded with NULs.
unfoldable pub strncpy : ℕ → Bytes → Object
strncpy n s = cells (take n s) ++ replicate (n - length s) (some 0)
