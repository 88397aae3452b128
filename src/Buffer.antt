-- ===== src/Buffer.antt =====
-- buffer.h and buffer.c: a growing array of chars. A function that updates `*b` returns the new
-- buffer beside its result; `none` is undefined behaviour. Allocation does not fail: where malloc
-- or realloc gives NULL the program calls `exit(1)`.
pub mod Growth
pub mod Contents
pub mod Transfer
use ttracker.Base.{
  ℕ, ◌+◌, ◌-◌, ◌*◌, ◌/◌, ◌%◌, ◌^◌, ◌≡◌, refl, Bool, true, false, Option, none, some, List, [], ◌∷◌,
  ◌++◌, Bytes, leb, ◌==◌, if◌then◌else◌, ◌>>=◌, length, replicate,
}
use ttracker.Base.Int.{ℤ, pos, negsuc, leb_ℤ, int_of_u64, int_max}
use ttracker.Memory.{Cell, Object, write_at, read_at, realloc, cells}

-- `struct buffer`; `p` is `none` where the pointer is NULL. `cursor` is never negative.
pub record Buffer : Type 0 where
  pub p : Option Object
  pub size : ℕ  -- size_t
  pub cursor : ℕ  -- int

abbrev pub buffer_size : ℕ
buffer_size = 64

-- The cells that `b->p` points to.
abbrev pub object_of : Option Object → Object
object_of none = []
object_of (some m) = m

abbrev pub object : Buffer → Object
object b = object_of b.p

-- An `int` result; past INT_MAX it is undefined.
abbrev pub to_int : ℕ → Option ℕ
to_int n = if leb n int_max then some n else none

unfoldable pub mk_buffer : Buffer
mk_buffer = record { p = none; size = 0; cursor = 0 }

pub init_buffer : Buffer → Buffer
init_buffer b = record b { p = none; size = 0; cursor = 0 }

pub alloc_buffer : Buffer → Buffer
alloc_buffer b = record b { p = some (replicate buffer_size none); size = buffer_size; cursor = 0 }

-- `free(b->p)` gives the object back; what is left of it is the reset.
pub truncate_buffer : Buffer → Buffer
truncate_buffer b = init_buffer b

-- `memset(p, 0, size)`, where `p` is not NULL.
abbrev zeroed : Option Object → ℕ → Option Object
zeroed none size = none
zeroed (some m) size = some (replicate size (some 0))

pub zero_buffer : Buffer → Buffer
zero_buffer b = record b { p = zeroed b.p b.size; cursor = 0 }

-- `(len/BUFFER_SIZE + 1) * BUFFER_SIZE` in size_t.
abbrev pub need : ℕ → ℕ
need len = (len / buffer_size + 1) * buffer_size % 2 ^ 64

-- `(b->size - b->cursor) - need` in size_t, cut down to an int.
abbrev pub room : Buffer → ℕ → ℤ
room b len = int_of_u64 ((b.size + 2 ^ 64 - b.cursor + 2 ^ 64 - need len) % 2 ^ 64)

unfoldable pub align_buffer : Buffer → ℕ → Buffer × ℤ
align_buffer b len =
    let grown = (b.size + need len) % 2 ^ 64 in
    if leb_ℤ (room b len) (pos 0)
    then (record b { p = some (realloc (object b) grown); size = grown }, pos 0)
    else (b, pos 0)

abbrev pub is_zero : ℤ → Bool
is_zero (pos n) = n == 0
is_zero (negsuc n) = false

-- The source is the `len` cells that `data` points to.
pub write_to_buffer : Buffer → Object → Option (Buffer × ℤ)
write_to_buffer b src =
    let (b1, _) = align_buffer b (length src) in
    if length src == 0 then some (b, negsuc 0) else (do
      m ← write_at (object b1) 0 src
      cursor ← to_int (length src)
      some (record b1 { p = some m; cursor = cursor }, pos 0))

-- `c` is a C string, given without its NUL.
pub append_string_to_buffer : Buffer → Bytes → Option (Buffer × ℤ)
append_string_to_buffer b c =
    let (b1, status) = align_buffer b (length c + 1) in
    do
      len ← to_int (length c)
      if is_zero status
          then (do
            m ← write_at (object b1) b1.cursor (cells c)
            cursor ← to_int (b1.cursor + len)
            m' ← write_at m cursor (some 0 ∷ [])
            some (record b1 { p = some m'; cursor = cursor }, pos len))
          else some (b1, negsuc 0)

append_present : Buffer → Buffer → Option (Buffer × ℤ)
append_present b c =
    let (b1, status) = align_buffer b c.cursor in
    if is_zero status
    then (do
      src ← read_at (object c) 0 c.cursor
      m ← write_at (object b1) b1.cursor src
      cursor ← to_int (b1.cursor + c.cursor)
      some (record b1 { p = some m; cursor = cursor }, pos 0))
    else some (b1, negsuc 0)

-- The two pointers may be NULL, and are not the same pointer.
pub append_to_buffer : Option Buffer → Option Buffer → Option (Option Buffer × ℤ)
unfolding append_present
append_to_buffer (some b) (some c) = elim (append_present b c) [
  | none ↦ none
  | some (b', r) ↦ some (some b', r)
]
append_to_buffer none c = some (none, negsuc 0)
append_to_buffer (some b) none = some (some b, negsuc 0)

unfoldable pub buffer_len : Buffer → ℕ
buffer_len b = b.cursor
