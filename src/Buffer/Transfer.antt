-- ===== src/Buffer/Transfer.antt =====
-- Writing over a buffer, and appending one buffer to another.
use ttracker.Base.{
  ℕ, zero, ◌+◌, ◌^◌, ◌≤◌, ◌<◌, ◌≡◌, ◌≢◌, refl, ap, subst, ◌∙◌, Option, none, some, [], ◌∷◌, ◌++◌,
  arith, length, take, replicate, length-replicate, length-take, ◌==◌,
}
use ttracker.Base.Int.{pos, negsuc}
use ttracker.Memory.{Object, Cell}
use ttracker.Memory.Laws.{written, write_at-in_bounds, length-written, take-written, read_at_start}
use ttracker.Buffer.{
  Buffer, object, object_of, zeroed, align_buffer, zero_buffer, write_to_buffer, append_present,
  append_to_buffer,
}
use ttracker.Buffer.Growth.{IsValid, Aligned, align_buffer-Aligned, align_buffer-size, contents}
use ttracker.Buffer.Contents.{Holds, to_int-fits}

-- The buffer after `m` is put at the offset `off` of its object, with the cursor behind it.
abbrev placed : Buffer → ℕ → Object → Buffer
placed b off m = record b { p = some (written (object b) off m); cursor = off + length m }

placed-Holds :
    (b : Buffer) (off : ℕ) (m : Object)
    → IsValid b
    → off + length m ≤ b.size
    → Holds (take off (object b) ++ m) (placed b off m)
placed-Holds b off m v h = record {
  valid = record {
    storage = length-written (object b) off m (omega (arith, v.storage)) ∙ v.storage;
    within = h;
    small = v.small;
    whole = v.whole;
  };
  held = take-written (object b) off m (omega (arith, v.storage));
}

nonempty_test : (m : Object) → m ≢ [] → (length m == 0) ≡ (1 == 0)
nonempty_test [] h = absurd (h refl)
nonempty_test (x ∷ m) h = ground arith

-- `buffer_write_to_buffer` replaces what a valid buffer held by the data.
pub write_to_buffer_lem :
    (b : Buffer) (m : Object)
    → IsValid b
    → m ≢ []
    → b.size + length m + 64 < 2 ^ 31
    → (b' : Buffer) × (write_to_buffer b m ≡ some (b', pos 0)) × Holds m b'
unfolding write_to_buffer
write_to_buffer_lem b m v ne k = (
  placed b1 zero m,
  rw
      (
        nonempty_test m ne,
        write_at-in_bounds (object b1) 0 m (omega (arith, fits)),
        to_int-fits (length m) (omega arith),
      )
      (ap (λ n. some (record b1 { p = some (written (object b1) 0 m); cursor = n }, pos 0))
        (omega arith)),
  placed-Holds b1 zero m a.valid (omega (arith, a.fits)),
)
  where
    b1 : Buffer
    b1 = (align_buffer b (length m)).0

    a : Aligned b (length m) (align_buffer b (length m))
    a = align_buffer-Aligned b (length m) v (omega arith)

    fits : length m ≤ length (object b1)
    fits = omega (arith, a.fits, a.valid.storage)

-- With no data it reports -1 and changes nothing.
pub write_to_buffer_empty : (b : Buffer) → write_to_buffer b [] ≡ some (b, negsuc 0)
unfolding write_to_buffer
write_to_buffer_empty b = refl

module _ (b c : Buffer) (v : IsValid b) (w : IsValid c) (k : b.size + c.cursor + 64 < 2 ^ 31) where
  b1 : Buffer
  b1 = (align_buffer b c.cursor).0

  a : Aligned b c.cursor (align_buffer b c.cursor)
  a = align_buffer-Aligned b c.cursor v (omega arith)

  length-held : length (contents c) ≡ c.cursor
  length-held = omega (arith, length-take c.cursor (object c), w.storage, w.within)

  fits : b1.cursor + length (contents c) ≤ b1.size
  unfolding b1
  fits = omega (arith, a.fits, length-held)

  append_present-runs : append_present b c ≡ some (placed b1 b1.cursor (contents c), pos 0)
  unfolding append_present b1
  append_present-runs =
      rw
        (
          a.status,
          read_at_start (object c) c.cursor (omega (arith, w.storage, w.within)),
          write_at-in_bounds (object b1) b1.cursor (contents c)
              (omega (arith, fits, a.valid.storage)),
          to_int-fits (b1.cursor + c.cursor) (omega (arith, a.fits, a.valid.small)),
        )
        (ap
          (λ n. some (
            record b1 { p = some (written (object b1) b1.cursor (contents c)); cursor = n },
            pos 0,
          ))
          (omega (arith, length-held)))

  append_present-Holds : Holds (contents b ++ contents c) (placed b1 b1.cursor (contents c))
  unfolding b1
  append_present-Holds =
      subst (λ t. Holds (t ++ contents c) (placed b1 b1.cursor (contents c))) a.kept
        (placed-Holds b1 b1.cursor (contents c) a.valid fits)

  append_present_grows : b1.size ≤ b.size + c.cursor + 64
  unfolding b1
  append_present_grows = omega (arith, align_buffer-size b c.cursor v.within (omega arith))

-- Appending a valid buffer to another one, of sizes that stay inside an int, reports 0: the first
-- then holds what it held and what the second holds, and has grown by at most that and one block.
pub append_to_buffer_lem :
    (b c : Buffer)
    → IsValid b
    → IsValid c
    → b.size + c.cursor + 64 < 2 ^ 31
    → (b' : Buffer) × (append_to_buffer (some b) (some c) ≡ some (some b', pos 0))
      × Holds (contents b ++ contents c) b'
      × (b'.size ≤ b.size + c.cursor + 64)
unfolding append_to_buffer
append_to_buffer_lem b c v w k = (
  placed (b1 b c v w k) (b1 b c v w k).cursor (contents c),
  rw (append_present-runs b c v w k, append_to_buffer),
  append_present-Holds b c v w k,
  append_present_grows b c v w k,
)

object_of-zeroed :
    (q : Option Object) (n : ℕ)
    → length (object_of q) ≡ n
    → object_of (zeroed q n) ≡ replicate n (some 0)
object_of-zeroed none n h = ap (λ k. replicate k (some 0)) h
object_of-zeroed (some m) n h = refl

-- `buffer_zero_buffer` keeps a valid buffer valid, with the object of the same size, of which every
-- char becomes a NUL, and nothing held.
pub zero_buffer_lem :
    (b : Buffer)
    → IsValid b
    → Holds [] (zero_buffer b)
      × (object (zero_buffer b) ≡ replicate b.size (some 0))
      × ((zero_buffer b).size ≡ b.size)
unfolding zero_buffer
zero_buffer_lem b v = (
  record {
    valid = record {
      storage =
          ap (λ t. length t) (object_of-zeroed b.p b.size v.storage)
          ∙ length-replicate {0} {A = Cell} b.size (some 0);
      within = omega arith;
      small = v.small;
      whole = v.whole;
    };
    held = refl;
  },
  object_of-zeroed b.p b.size v.storage,
  refl,
)
