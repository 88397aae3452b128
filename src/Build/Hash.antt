-- ===== src/Build/Hash.antt =====
-- The hash that a request is built with.
use ttracker.Base.{
  ℕ, zero, suc, ◌+◌, ◌-◌, ◌*◌, ◌/◌, ◌%◌, ◌<◌, ◌≤◌, ◌≡◌, ◌≢◌, refl, sym, ap, ◌∙◌, true, false,
  Option, some, [], ◌∷◌, ◌++◌, All, Bytes, ltb, arith, length, take, drop, replicate, length-append,
  length-take, append_assoc, append-nil, take_all,
}
use ttracker.Memory.{Object, cells, strncpy}
use ttracker.Memory.Laws.{IsText}
use ttracker.Memory.Printf.{
  rest_after, sprintf_behind, rest_after-append, length-rest_after, rest_after_nonempty,
}
use ttracker.Torrent.Lookup.{IsHash, announced}
use ttracker.Request.{sanitize_info_hash}
use ttracker.Request.Clean.{IsHex, StartsHex, StartsHex-sanitize_info_hash}
use ttracker.Build.{hex_digit, hex_byte, print_hex, url_decode}

abbrev pub hex_text : Bytes → Bytes
hex_text [] = []
hex_text (c ∷ s) = hex_digit (c / 16) ∷ hex_digit (c % 16) ∷ hex_text s

pub length-hex_text : (s : Bytes) → length (hex_text s) ≡ 2 * length s
length-hex_text [] = omega arith
length-hex_text (c ∷ s) = omega (arith, length-hex_text s)

hex_digit-IsHex : (n : ℕ) → n < 16 → IsHex (hex_digit n)
hex_digit-IsHex n h = ground (arith, h)

hex_text-IsHex : (s : Bytes) → All (λ c. c < 256) s → All IsHex (hex_text s)
hex_text-IsHex [] h = tt
hex_text-IsHex (c ∷ s) h = (
  hex_digit-IsHex (c / 16) (omega (arith, h.0)),
  (hex_digit-IsHex (c % 16) (omega arith), hex_text-IsHex s h.1),
)

hex_digit-nonzero : (n : ℕ) → hex_digit n ≢ 0
hex_digit-nonzero n = ground arith

pub hex_text-IsText : (s : Bytes) → IsText (hex_text s)
hex_text-IsText [] = tt
hex_text-IsText (c ∷ s) =
    (hex_digit-nonzero (c / 16), (hex_digit-nonzero (c % 16), hex_text-IsText s))

-- The loop, behind what it has written.
pub print_hex_behind :
    (decoded s : Bytes) (r : Object)
    → 2 * length decoded < length r
    → print_hex decoded (length s) (cells s ++ r)
      ≡ some (cells (s ++ hex_text decoded) ++ rest_after (hex_text decoded) r)
unfolding print_hex
print_hex_behind [] s r h = ap (λ t. some (cells t ++ r)) (sym (append-nil s))
print_hex_behind (c ∷ decoded) s r h =
    let b = hex_byte c in
    let written = sprintf_behind s b r (ground arith) (omega (arith, h)) in
    let l : length s + 2 ≡ length (s ++ b) = omega (arith, length-append s b) in
    rw written (
      ap (λ o. print_hex decoded o (cells (s ++ b) ++ rest_after b r)) l
      ∙ print_hex_behind decoded (s ++ b) (rest_after b r)
          (omega (arith, h, length-rest_after b r (omega (arith, h))))
      ∙ ap (λ t. some (cells t ++ rest_after (hex_text decoded) (rest_after b r)))
          (append_assoc s b (hex_text decoded))
      ∙ ap (λ u. some (cells (s ++ hex_text (c ∷ decoded)) ++ u))
          (rest_after-append b (hex_text decoded) r))

zeros : Object
zeros = replicate 257 (some 0)

-- Behind forty chars of a cleared array.
rest-zeros : (h : Bytes) → length h ≡ 40 → rest_after h zeros ≡ replicate (257 - length h) (some 0)
unfolding zeros
rest-zeros h l =
    rest_after_nonempty h zeros (λ e. omega (arith, l, ap (λ s. length s) e))
    ∙ ap (λ n. some 0 ∷ drop (n + 1) (replicate 257 (some 0))) l
    ∙ ap (λ n. replicate (257 - n) (some 0)) (sym l)

decode_exact :
    (decoded : Bytes)
    → length decoded ≡ 20
    → All (λ c. c < 256) decoded
    → (h : Bytes) × (print_hex decoded 0 zeros ≡ some (announced h))
      × IsHash h
      × StartsHex (announced h) 40
unfolding strncpy zeros
decode_exact decoded n a =
    let h = hex_text decoded in
    let l : length h ≡ 40 = omega (arith, length-hex_text decoded, n) in
    let same = rest-zeros h l in
    let padded : cells h ++ replicate (257 - length h) (some 0) ≡ announced h =
      rw (take_all h 257 (omega (arith, l))) refl in
    (
      h,
      print_hex_behind decoded [] zeros (omega (arith, n))
          ∙ ap (λ u. some (cells h ++ u)) same
          ∙ ap (λ m. some m) padded,
      (hex_text-IsText decoded, omega (arith, l)),
      (h, replicate (257 - length h) (some 0), l, hex_text-IsHex decoded a, sym padded),
    )

pub All-take : (n : ℕ) (s : Bytes) → All (λ c. c < 256) s → All (λ c. c < 256) (take n s)
All-take zero s h = tt
All-take (suc n) [] h = tt
All-take (suc n) (c ∷ s) h = (h.0, All-take n s h.1)

-- Where a value unescapes to twenty bytes or more, the array that a request is built with holds the
-- hexadecimal digits of the first twenty, padded with NULs: they pass the check of the hash, and
-- they are a hash as the lookup of a torrent takes it.
pub url_decode_lem :
    (unescape : Bytes → Option Bytes) (val decoded : Bytes)
    → unescape val ≡ some decoded
    → 20 ≤ length decoded
    → All (λ c. c < 256) decoded
    → (h : Bytes) × (url_decode unescape (replicate 257 (some 0)) val ≡ some (announced h))
      × IsHash h
      × (sanitize_info_hash (announced h) 40 ≡ some true)
unfolding url_decode zeros
url_decode_lem unescape val decoded e n a =
    let (h, p, i, s) =
      decode_exact (take 20 decoded) (omega (arith, n, length-take 20 decoded))
        (All-take 20 decoded a) in
    let short : ltb (length decoded) 20 ≡ false = ground (arith, n) in
    (h, rw (url_decode, e, short) p, i, StartsHex-sanitize_info_hash (announced h) s)
