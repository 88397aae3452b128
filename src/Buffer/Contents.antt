-- ===== src/Buffer/Contents.antt =====
-- What each operation leaves in a buffer.
use ttracker.Base.{
  ℕ, ◌+◌, ◌^◌, ◌≤◌, ◌<◌, ◌≡◌, ap, sym, ◌∙◌, some, [], ◌∷◌, ◌++◌, Bytes, arith, length, take,
  length-map,
}
use ttracker.Base.Int.{pos}
use ttracker.Memory.{Object, Cell, cells}
use ttracker.Memory.Laws.{
  written, take-written_before, write_at-in_bounds, length-written, take-written,
}
use ttracker.Buffer.{Buffer, object, align_buffer, append_string_to_buffer, to_int}
use ttracker.Buffer.Growth.{IsValid, Aligned, align_buffer-Aligned, align_buffer-size, contents}

-- A valid buffer that holds `m`.
pub record Holds (m : Object) (b : Buffer) : Type 0 where
  pub valid : IsValid b
  pub held : contents b ≡ m

-- The object and the buffer that `append_string_to_buffer` leaves, from the aligned buffer.
abbrev text_written : Buffer → Bytes → Object
text_written b1 c = written (object b1) b1.cursor (cells c)

abbrev appended : Buffer → Bytes → Buffer
appended b1 c = record b1 {
  p = some (written (text_written b1 c) (b1.cursor + length c) (some 0 ∷ []));
  cursor = b1.cursor + length c;
}

pub to_int-fits : (n : ℕ) → n < 2 ^ 31 → to_int n ≡ some n
to_int-fits n h = ground arith

module _ (b : Buffer) (c : Bytes) (v : IsValid b) (k : b.size + length c + 65 < 2 ^ 31) where
  b1 : Buffer
  b1 = (align_buffer b (length c + 1)).0

  a : Aligned b (length c + 1) (align_buffer b (length c + 1))
  a = align_buffer-Aligned b (length c + 1) v (omega arith)

  text_fits : b1.cursor + length (cells c) < length (object b1)
  unfolding b1
  text_fits = omega (arith, a.fits, a.valid.storage, length-map {A = ℕ} {B = Cell} some c)

  nul_fits : b1.cursor + length c + 1 ≤ length (text_written b1 c)
  nul_fits = omega (
    arith,
    text_fits,
    length-map {A = ℕ} {B = Cell} some c,
    length-written (object b1) b1.cursor (cells c) (omega (arith, text_fits)),
  )

  append_string-runs : append_string_to_buffer b c ≡ some (appended b1 c, pos (length c))
  unfolding append_string_to_buffer b1
  append_string-runs = rw (
    to_int-fits (length c) (omega arith),
    a.status,
    write_at-in_bounds (object b1) b1.cursor (cells c) (omega (arith, text_fits)),
    to_int-fits (b1.cursor + length c) (omega (arith, a.fits, a.valid.small)),
    write_at-in_bounds (text_written b1 c) (b1.cursor + length c) (some 0 ∷ []) nul_fits,
  )

  text_held : take (b1.cursor + length c) (text_written b1 c) ≡ contents b ++ cells c
  text_held =
      ap (λ n. take (b1.cursor + n) (text_written b1 c))
        (sym (length-map {A = ℕ} {B = Cell} some c))
      ∙ take-written (object b1) b1.cursor (cells c) (omega (arith, text_fits))
      ∙ ap (λ t. t ++ cells c) b1_kept
    where
      b1_kept : contents b1 ≡ contents b
      b1_kept = unfold b1 in a.kept

  -- Up to the NUL the object is the old contents, the string and the NUL.
  nul_held :
      take (b1.cursor + length c + 1) (object (appended b1 c))
      ≡ (contents b ++ cells c) ++ some 0 ∷ []
  nul_held =
      take-written (text_written b1 c) (b1.cursor + length c) (some 0 ∷ []) nul_fits
      ∙ ap (λ t. t ++ some 0 ∷ []) text_held

  appended-Holds : Holds (contents b ++ cells c) (appended b1 c)
  unfolding b1
  appended-Holds = record {
    valid = record {
      storage = omega (
        arith,
        length-written (text_written b1 c) (b1.cursor + length c) (some 0 ∷ []) nul_fits,
        length-written (object b1) b1.cursor (cells c) (omega (arith, text_fits)),
        a.valid.storage,
      );
      within = omega (arith, a.fits);
      small = a.valid.small;
      whole = a.valid.whole;
    };
    held =
        take-written_before (text_written b1 c) (b1.cursor + length c) (some 0 ∷ [])
          (omega (arith, nul_fits))
        ∙ text_held;
  }

  appended_grows : b1.size ≤ b.size + length c + 65
  unfolding b1
  appended_grows = omega (arith, align_buffer-size b (length c + 1) v.within (omega arith))

-- Appending a string to a valid buffer whose sizes stay inside an int never leaves its object: the
-- result is the string's length, the buffer holds what it held and then the string, a NUL stands
-- behind the cursor, and the buffer has grown by at most the string and one block.
pub append_string_lem :
    (b : Buffer) (c : Bytes)
    → IsValid b
    → b.size + length c + 65 < 2 ^ 31
    → (b' : Buffer) × (append_string_to_buffer b c ≡ some (b', pos (length c)))
      × Holds (contents b ++ cells c) b'
      × (take (b'.cursor + 1) (object b') ≡ contents b' ++ some 0 ∷ [])
      × (b'.size ≤ b.size + length c + 65)
append_string_lem b c v k = (
  appended (b1 b c v k) c,
  append_string-runs b c v k,
  appended-Holds b c v k,
  nul_held b c v k ∙ ap (λ t. t ++ some 0 ∷ []) (sym (appended-Holds b c v k).held),
  appended_grows b c v k,
)
