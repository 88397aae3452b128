-- ===== src/Scrape/Decoded.antt =====
-- The hashes that `http_build_peer_req_hash_list` decodes, the last one first.
use ttracker.Base.{
  ◌+◌, ◌-◌, ◌<◌, ◌≤◌, ◌≡◌, refl, sym, ap, subst, ◌∙◌, false, Option, none, some, List, [], ◌∷◌,
  ◌++◌, Bytes, All, arith, length, take, drop, replicate, ltb, map, length-take,
}
use ttracker.Memory.{Object, cells}
use ttracker.Memory.Printf.{rest_after, rest_after_nonempty}
use ttracker.Torrent.Lookup.{scraped}
use ttracker.Build.{KeyVal, url_decode}
use ttracker.Build.Hash.{hex_text, length-hex_text, print_hex_behind, All-take}
use ttracker.Scrape.{hash_list}

-- LIST_INSERT_HEAD of each element.
abbrev pub onto {ℓ} : {A : Type ℓ} → List A → List A → List A
onto [] ys = ys
onto (x ∷ xs) ys = onto xs (x ∷ ys)

pub onto-onto {ℓ} : {A : Type ℓ} (xs ys zs : List A) → onto (onto xs ys) zs ≡ onto ys (xs ++ zs)
onto-onto [] ys zs = refl
onto-onto (x ∷ xs) ys zs = onto-onto xs (x ∷ ys) zs

pub map-onto {ℓ} :
    {A B : Type ℓ} (f : A → B) (xs ys : List A) → map f (onto xs ys) ≡ onto (map f xs) (map f ys)
map-onto f [] ys = refl
map-onto f (x ∷ xs) ys = map-onto f xs (x ∷ ys)

pub length-onto {ℓ} : {A : Type ℓ} (xs ys : List A) → length (onto xs ys) ≡ length xs + length ys
length-onto [] ys = omega arith
length-onto (x ∷ xs) ys = omega (arith, length-onto xs (x ∷ ys))

-- The values of the query unescape to texts of at least twenty bytes, which begin with `ds`.
abbrev pub AreDecoded : (Bytes → Option Bytes) → List KeyVal → List Bytes → Type 0
AreDecoded unescape [] [] = Unit
AreDecoded unescape [] (d ∷ ds) = ⊥
AreDecoded unescape (np ∷ list) [] = ⊥
AreDecoded unescape (np ∷ list) (d ∷ ds) =
    ((whole : Bytes) × (unescape np.val ≡ some whole)
      × (20 ≤ length whole)
      × (d ≡ take 20 whole)
      × All (λ c. c < 256) whole)
    × AreDecoded unescape list ds

abbrev pub hash_array : Bytes → Object
hash_array d = scraped (hex_text d)

unwritten : Object
unwritten = replicate 257 none

rest-unwritten :
    (h : Bytes) → length h ≡ 40 → rest_after h unwritten ≡ some 0 ∷ replicate (256 - length h) none
unfolding unwritten
rest-unwritten h l =
    rest_after_nonempty h unwritten (λ e. omega (arith, l, ap (λ s. length s) e))
    ∙ ap (λ n. some 0 ∷ drop (n + 1) (replicate 257 none)) l
    ∙ ap (λ n. some 0 ∷ replicate (256 - n) none) (sym l)

-- Twenty bytes of which each is a char.
abbrev pub IsBytes : Bytes → Type 0
IsBytes d = (length d ≡ 20) × All (λ c. c < 256) d

decode_one :
    (unescape : Bytes → Option Bytes) (val whole : Bytes)
    → unescape val ≡ some whole
    → 20 ≤ length whole
    → url_decode unescape (replicate 257 none) val ≡ some (hash_array (take 20 whole))
unfolding url_decode unwritten
decode_one unescape val whole e n =
    let d = take 20 whole in
    let k : length d ≡ 20 = omega (arith, n, length-take 20 whole) in
    let l : length (hex_text d) ≡ 40 = omega (arith, length-hex_text d, k) in
    let short : ltb (length whole) 20 ≡ false = ground (arith, n) in
    rw (url_decode, e, short)
      (print_hex_behind d [] unwritten (omega (arith, k))
        ∙ ap (λ u. some (cells (hex_text d) ++ u)) (rest-unwritten (hex_text d) l))

pub hash_list_lem :
    (unescape : Bytes → Option Bytes) (list : List KeyVal) (ds : List Bytes) (hs : List Object)
    → AreDecoded unescape list ds
    → (hash_list unescape list hs ≡ some (onto (map hash_array ds) hs)) × All IsBytes ds
unfolding hash_list
hash_list_lem unescape [] [] hs a = (refl, tt)
hash_list_lem unescape [] (d ∷ ds) hs a = absurd a
hash_list_lem unescape (np ∷ list) [] hs a = absurd a
hash_list_lem unescape (np ∷ list) (d ∷ ds) hs ((whole, e, n, t, b), a) =
    let (rest, bytes) = hash_list_lem unescape list ds (hash_array d ∷ hs) a in
    (
      rw (decode_one unescape np.val whole e n, ← t) rest,
      (
        (
          ap (λ s. length s) t ∙ omega (arith, n, length-take 20 whole),
          subst (All (λ c. c < 256)) (sym t) (All-take 20 whole b),
        ),
        bytes,
      ),
    )
