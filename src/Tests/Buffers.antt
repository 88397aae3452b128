-- ===== src/Tests/Buffers.antt =====
-- Buffers of buffer.c with a few chars in them.
use ttracker.Base.{◌+◌, ◌≤◌, ◌≡◌, refl, none, some, [], ◌∷◌, ◌++◌, codes, take, replicate, arith}
use ttracker.Base.Int.{pos}
use ttracker.Memory.{cells}
use ttracker.Buffer.{Buffer, object, align_buffer, append_string_to_buffer}
use ttracker.Buffer.Growth.{IsValid, contents, Aligned, align_buffer-Aligned}
use ttracker.Buffer.Contents.{Holds, append_string_lem}

abbrev one_letter : Buffer
one_letter = record { p = some (some b'A' ∷ replicate 63 none); size = 64; cursor = 1 }

one_letter-IsValid : IsValid one_letter
one_letter-IsValid = record {
  storage = refl;
  within = omega arith;
  small = omega arith;
  whole = refl;
}

align_buffer-Aligned_example : Aligned one_letter 100 (align_buffer one_letter 100)
align_buffer-Aligned_example = align_buffer-Aligned one_letter 100 one_letter-IsValid (omega arith)

append_string_lem_example :
    (b' : Buffer) × (append_string_to_buffer one_letter (codes "BC") ≡ some (b', pos 2))
    × Holds (cells (codes "ABC")) b'
    × (take (b'.cursor + 1) (object b') ≡ contents b' ++ some 0 ∷ [])
    × (b'.size ≤ 131)
append_string_lem_example =
    append_string_lem one_letter (codes "BC") one_letter-IsValid (omega arith)
