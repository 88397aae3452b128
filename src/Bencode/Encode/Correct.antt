-- ===== src/Bencode/Encode/Correct.antt =====
-- The encoder against the printer of the format.
use ttracker.Base.{
  ℕ, ◌+◌, ◌-◌, ◌<◌, ◌≡◌, ◌≢◌, some, [], ◌∷◌, ◌++◌, Bytes, codes, arith, length, length-append,
  ◌>>=◌, append_assoc, ap, ap₂, sym, ◌∙◌,
}
use ttracker.Base.Int.{pos, negsuc, ◌+ℤ◌, int_laws}
use ttracker.Memory.{Object, cells}
use ttracker.Memory.Laws.{IsText}
use ttracker.Memory.Printf.{rest_after, length-rest_after, cells-append}
use ttracker.Bencode.{
  Value, Values, Pairs, int, bytestring, list, dict, unknown, nil, cons, end, pair, print,
  print_values, print_pairs, print_bytes, IsKnown, AreKnown, HasKnown,
}
use ttracker.Bencode.Roundtrip.{Encodes, print-Encodes}
use ttracker.Bencode.Encode.{int_of_long, encode_bytes, add_to, bencode, bencode_list, bencode_dict}
use ttracker.Bencode.Encode.Pieces.{
  Puts, Adds, state, encode_bytes-Puts, encode_int-Puts, add_to-Adds, seq-Adds, bracket-Adds,
  nothing-Adds,
}

-- What the encoder handles: no empty text, no NUL in one, and integers of 32 bits.
unfoldable mutual
  pub IsPlain : Value → Type 0
  IsPlain (int n) = int_of_long n ≡ n
  IsPlain (bytestring s) = (s ≢ []) × IsText s
  IsPlain (list vs) = ArePlain vs
  IsPlain (dict ps) = HasPlain ps
  IsPlain unknown = ⊥

  pub ArePlain : Values → Type 0
  ArePlain nil = Unit
  ArePlain (cons v vs) = IsPlain v × ArePlain vs

  pub HasPlain : Pairs → Type 0
  HasPlain end = Unit
  HasPlain (pair k v ps) = ((k ≢ []) × IsText k) × (IsPlain v × HasPlain ps)

-- The text of a bracket is its body and two more.
length-bracket : (c : ℕ) (body : Bytes) → length (c ∷ (body ++ b'e' ∷ [])) ≡ length body + 2
length-bracket c body = omega (arith, length-append body (b'e' ∷ []))

mutual
  unfolding bencode print IsPlain

  bencode-Puts :
      (v : Value) (s : Bytes) (r : Object) (n : ℕ)
      → IsPlain v
      → length (print v) < n
      → length (print v) < length r
      → Puts s (print v) r (bencode v (cells s ++ r) (length s) (pos n))
  bencode-Puts (int i) s r n q k room = rw q (encode_int-Puts s i r n k room)
  bencode-Puts (bytestring t) s r n q k room = encode_bytes-Puts s t r n q.0 q.1 k room
  bencode-Puts (list vs) s r n q k room =
      let e = length-bracket b'l' (print_values vs) in
      let left = length-rest_after (codes "l") r (omega (arith, e)) in
      bracket-Adds s (print_values vs) b'l' r n (bencode_list vs (length s) (pos n))
        (omega (arith, e)) (omega (arith, e))
        (bencode_list-Adds vs s (codes "l") (rest_after (codes "l") r) n q (omega (arith, e))
          (omega (arith, e, left)))
  bencode-Puts (dict ps) s r n q k room =
      let e = length-bracket b'd' (print_pairs ps) in
      let left = length-rest_after (codes "d") r (omega (arith, e)) in
      bracket-Adds s (print_pairs ps) b'd' r n (bencode_dict ps (length s) (pos n))
        (omega (arith, e)) (omega (arith, e))
        (bencode_dict-Adds ps s (codes "d") (rest_after (codes "d") r) n q (omega (arith, e))
          (omega (arith, e, left)))
  bencode-Puts unknown s r n q k room = absurd q

  bencode_list-Adds :
      (vs : Values) (p s : Bytes) (r : Object) (n : ℕ)
      → ArePlain vs
      → length s + length (print_values vs) < n
      → length (print_values vs) < length r
      → Adds p s (print_values vs) r (bencode_list vs (length p) (pos n) (state p s r))
  bencode_list-Adds nil p s r n q k room = nothing-Adds p s r
  bencode_list-Adds (cons v vs) p s r n q k room =
      let e = length-append (print v) (print_values vs) in
      let left = length-rest_after (print v) r (omega (arith, e)) in
      let f = length-append s (print v) in
      seq-Adds p s (print v) (print_values vs) r
        (add_to (length p) (pos n) (state p s r) (bencode v)) (bencode_list vs (length p) (pos n))
        (add_to-Adds p s (print v) r n (bencode v) (omega arith)
          (bencode-Puts v (p ++ s) r (n - length s) q.0 (omega (arith, e)) (omega (arith, e))))
        (bencode_list-Adds vs p (s ++ print v) (rest_after (print v) r) n q.1 (omega (arith, e, f))
          (omega (arith, e, left)))

  bencode_dict-Adds :
      (ps : Pairs) (p s : Bytes) (r : Object) (n : ℕ)
      → HasPlain ps
      → length s + length (print_pairs ps) < n
      → length (print_pairs ps) < length r
      → Adds p s (print_pairs ps) r (bencode_dict ps (length p) (pos n) (state p s r))
  bencode_dict-Adds end p s r n q k room = nothing-Adds p s r
  bencode_dict-Adds (pair key v ps) p s r n q k room =
      let e = length-append (print_bytes key) (print v ++ print_pairs ps) in
      let e' = length-append (print v) (print_pairs ps) in
      let s1 = s ++ print_bytes key in
      let r1 = rest_after (print_bytes key) r in
      let left1 = length-rest_after (print_bytes key) r (omega (arith, e, e')) in
      let left2 = length-rest_after (print v) r1 (omega (arith, e, e', left1)) in
      let f1 = length-append s (print_bytes key) in
      let f2 = length-append s1 (print v) in
      seq-Adds p s (print_bytes key) (print v ++ print_pairs ps) r
        (add_to (length p) (pos n) (state p s r) (encode_bytes key (pos (length key))))
        (λ o.
          add_to (length p) (pos n) o (bencode v) >>= λ o'. bencode_dict ps (length p) (pos n) o')
        (add_to-Adds p s (print_bytes key) r n (encode_bytes key (pos (length key))) (omega arith) (
          encode_bytes-Puts (p ++ s) key r (n - length s) q.0.0 q.0.1 (omega (arith, e, e'))
            (omega (arith, e, e'))))
        (seq-Adds p s1 (print v) (print_pairs ps) r1
          (add_to (length p) (pos n) (state p s1 r1) (bencode v))
          (bencode_dict ps (length p) (pos n))
          (add_to-Adds p s1 (print v) r1 n (bencode v) (omega (arith, e, e', f1)) (
            bencode-Puts v (p ++ s1) r1 (n - length s1) q.1.0 (omega (arith, e, e', f1))
              (omega (arith, e, e', left1))))
          (bencode_dict-Adds ps p (s1 ++ print v) (rest_after (print v) r1) n q.1.1
            (omega (arith, e, e', f1, f2)) (omega (arith, e, e', left1, left2))))

mutual
  unfolding IsPlain IsKnown

  IsPlain-IsKnown : (v : Value) → IsPlain v → IsKnown v
  IsPlain-IsKnown (int n) q = tt
  IsPlain-IsKnown (bytestring s) q = tt
  IsPlain-IsKnown (list vs) q = ArePlain-AreKnown vs q
  IsPlain-IsKnown (dict ps) q = HasPlain-HasKnown ps q
  IsPlain-IsKnown unknown q = q

  ArePlain-AreKnown : (vs : Values) → ArePlain vs → AreKnown vs
  ArePlain-AreKnown nil q = tt
  ArePlain-AreKnown (cons v vs) q = (IsPlain-IsKnown v q.0, ArePlain-AreKnown vs q.1)

  HasPlain-HasKnown : (ps : Pairs) → HasPlain ps → HasKnown ps
  HasPlain-HasKnown end q = tt
  HasPlain-HasKnown (pair k v ps) q = (IsPlain-IsKnown v q.1.0, HasPlain-HasKnown ps q.1.1)

-- `bencode` on a value with no empty text, no NUL inside a text and no integer past 32 bits, into an
-- array with room for the result and a NUL and told of that room: it returns the length of a text
-- that the reader takes for this value and nothing more, and writes that text at the start of the
-- array.
pub bencode_lem :
    (v : Value) (m : Object) (n : ℕ)
    → IsPlain v
    → length (print v) < n
    → length (print v) < length m
    → (bencode v m 0 (pos n)
        ≡ some (cells (print v) ++ rest_after (print v) m, pos (length (print v))))
      × Encodes (print v) v
bencode_lem v m n q k room = (bencode-Puts v [] m n q k room, print-Encodes v (IsPlain-IsKnown v q))

-- An empty text in a list is not encoded: it takes back the char that was counted last, over which
-- the rest of the list is then written.
pub bencode_list-empty_text :
    (vs : Values) (p s : Bytes) (c : ℕ) (r : Object) (n : ℕ)
    → bencode_list (cons (bytestring []) vs) (length p) (pos n) (state p (s ++ c ∷ []) r)
      ≡ bencode_list vs (length p) (pos n) (state p s (some c ∷ r))
unfolding bencode encode_bytes
bencode_list-empty_text vs p s c r n =
    ap₂ (λ m k. bencode_list vs (length p) (pos n) (m, k)) given_back taken_back
  where
    given_back : cells (p ++ (s ++ c ∷ [])) ++ r ≡ cells (p ++ s) ++ some c ∷ r
    given_back =
        ap (λ t. cells t ++ r) (sym (append_assoc p s (c ∷ [])))
        ∙ ap (λ m. m ++ r) (cells-append (p ++ s) (c ∷ []))
        ∙ append_assoc (cells (p ++ s)) (some c ∷ []) r

    taken_back : pos (length (s ++ c ∷ [])) +ℤ negsuc 0 ≡ pos (length s)
    taken_back = omega (int_laws, length-append s (c ∷ []))
