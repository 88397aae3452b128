-- ===== src/Buffer/Growth.antt =====
-- The invariant of a buffer, and what `buffer_align_buffer` makes room for.
use ttracker.Base.{ℕ, ◌+◌, ◌%◌, ◌^◌, ◌≤◌, ◌<◌, ◌≡◌, refl, ◌⊎◌, inl, inr, some, arith, length, take}
use ttracker.Base.Int.{ℤ, pos}
use ttracker.Memory.{Object, realloc}
use ttracker.Memory.Laws.{length-realloc, take-realloc}
use ttracker.Buffer.{Buffer, object, need, align_buffer, mk_buffer}

-- The object has `size` chars, a multiple of BUFFER_SIZE, and the cursor stays inside it.
pub record IsValid (b : Buffer) : Type 0 where
  pub storage : length (object b) ≡ b.size
  pub within : b.cursor ≤ b.size
  pub small : b.size < 2 ^ 31
  pub whole : b.size % 64 ≡ 0

-- The cells before the cursor: what the buffer holds.
abbrev pub contents : Buffer → Object
contents b = take b.cursor (object b)

abbrev grown : Buffer → ℕ → Buffer
grown b len = record b {
  p = some (realloc (object b) (b.size + need len));
  size = b.size + need len;
}

-- The signed test on the wrapped difference compares as meant.
align-cases :
    (b : Buffer) (len : ℕ)
    → b.cursor ≤ b.size
    → b.size + len + 64 < 2 ^ 31
    → ((align_buffer b len ≡ (grown b len, pos 0)) × (b.size ≤ b.cursor + need len))
      ⊎ ((align_buffer b len ≡ (b, pos 0)) × (b.cursor + need len < b.size))
unfolding align_buffer
align-cases b len h k = ground arith

-- The shape of the result, for `ground` in the proofs about the callers.
pub record Aligned (b : Buffer) (len : ℕ) (r : Buffer × ℤ) : Type 0 where
  pub status : r.1 ≡ pos 0
  pub valid : IsValid r.0
  pub same_cursor : r.0.cursor ≡ b.cursor
  pub fits : r.0.cursor + len < r.0.size
  pub kept : contents r.0 ≡ contents b

grown-Aligned :
    (b : Buffer) (len : ℕ)
    → IsValid b
    → b.size + len + 64 < 2 ^ 31
    → b.size ≤ b.cursor + need len
    → Aligned b len (grown b len, pos 0)
grown-Aligned b len v k h = record {
  status = refl;
  valid = record {
    storage = length-realloc (object b) (b.size + need len);
    within = omega arith;
    small = omega arith;
    whole = omega arith;
  };
  same_cursor = refl;
  fits = omega arith;
  kept = take-realloc (object b) (b.size + need len) b.cursor (omega arith) (omega arith);
}

-- From any state within the bounds, `buffer_align_buffer` reports 0 and leaves more than `len`
-- free chars behind the cursor, in a valid buffer that holds what it held.
pub align_buffer-Aligned :
    (b : Buffer) (len : ℕ)
    → IsValid b
    → b.size + len + 64 < 2 ^ 31
    → Aligned b len (align_buffer b len)
align_buffer-Aligned b len v k = elim (align-cases b len v.within k) [
  | inl (e, h) ↦ rw e (grown-Aligned b len v k h)
  | inr (e, h) ↦
      rw e
        (record { status = refl; valid = v; same_cursor = refl; fits = omega arith; kept = refl })
]

-- A buffer grows by whole blocks, at most one more than the request needs.
pub align_buffer-size :
    (b : Buffer) (len : ℕ)
    → b.cursor ≤ b.size
    → b.size + len + 64 < 2 ^ 31
    → ((align_buffer b len).0.size ≡ b.size)
      ⊎ (((align_buffer b len).0.size ≡ b.size + need len) × (b.size ≤ b.cursor + len + 64))
align_buffer-size b len h k = elim (align-cases b len h k) [
  | inl (e, c) ↦ rw e (inr (refl, omega arith))
  | inr (e, c) ↦ rw e (inl refl)
]

pub mk_buffer-IsValid : IsValid mk_buffer
unfolding mk_buffer
mk_buffer-IsValid = omega arith
