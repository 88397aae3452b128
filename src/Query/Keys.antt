-- ===== src/Query/Keys.antt =====
-- The check of the keys, against what `http_build_peer_req` looks up.
use ttracker.Base.{
  ℕ, ◌+◌, ◌<◌, ◌≤◌, ◌≡◌, ◌≢◌, ◌↔◌, ◌⊎◌, inl, inr, refl, sym, ap, ◌∙◌, Option, none, some, List, [],
  ◌∷◌, Bytes, codes, if◌then◌else◌, ltb, bytes_eq, length, arith, All, Bool-cases, ◌&&◌, ◌==◌,
}
use ttracker.Build.{KeyVal, lookup_kv_key, build_peer_req}
use ttracker.Query.{announce, count_key, count_keys, check_keys}

some-none : {np : KeyVal} → some np ≢ none
some-none h = cc

-- The two orders of the comparison that the parser and the lookup use.
bytes_eq-sym : (s t : Bytes) → bytes_eq s t ≡ bytes_eq t s
unfolding bytes_eq
bytes_eq-sym [] [] = refl
bytes_eq-sym [] (d ∷ t) = refl
bytes_eq-sym (c ∷ s) [] = refl
bytes_eq-sym (c ∷ s) (d ∷ t) = rw (bytes_eq-sym s t) (ap (λ b. b && bytes_eq t s) (==-sym c d))
  where
    ==-sym : (c d : ℕ) → (c == d) ≡ (d == c)
    ==-sym c d = ground arith

-- A key is found or not, as its entries are counted.
lookup-count :
    (key : Bytes) (list : List KeyVal)
    → ((lookup_kv_key list key ≡ none) × (count_key key list ≡ 0))
      ⊎ ((lookup_kv_key list key ≢ none) × (0 < count_key key list))
unfolding lookup_kv_key count_key
lookup-count key [] = inl (refl, refl)
lookup-count key (np ∷ list) = elim (Bool-cases (bytes_eq key np.key)) [
  | inl e ↦ inr (rw (sym (bytes_eq-sym key np.key), e) some-none, rw e (omega arith))
  | inr e ↦
      let plus : 0 + count_key key list ≡ count_key key list = omega arith in
      rw (sym (bytes_eq-sym key np.key), e, plus) (lookup-count key list)
]

-- The keys that an announce wants.
abbrev pub wanted : List Bytes
wanted =
    codes "info_hash"
    ∷ codes "peer_id"
    ∷ codes "port"
    ∷ codes "uploaded"
    ∷ codes "downloaded"
    ∷ codes "left"
    ∷ []

check_keys_iff :
    (list : List KeyVal) → (check_keys announce list ≡ some list) ↔ (6 ≤ count_keys list)
unfolding check_keys
check_keys_iff list = elim (Bool-cases (ltb (count_keys list) 6)) [
  | inl e ↦ (
    λ h. absurd (some-list (sym (ap (λ b. if b then none else some list) e) ∙ h)),
    λ h. absurd (ground (arith, e, h)),
  )
  | inr e ↦ (λ h. ground (arith, e), λ h. ap (λ b. if b then none else some list) e)
]
  where
    some-list : none ≢ some list
    some-list h = cc

total : List KeyVal → List Bytes → ℕ
total list [] = 0
total list (key ∷ keys) = count_key key list + total list keys

total-le :
    (list : List KeyVal) (keys : List Bytes)
    → All (λ key. count_key key list ≤ 1) keys
    → total list keys ≤ length keys
unfolding total
total-le list [] h = omega arith
total-le list (key ∷ keys) h = omega (arith, h.0, total-le list keys h.1)

found-total :
    (list : List KeyVal) (keys : List Bytes)
    → All (λ key. count_key key list ≤ 1) keys
    → length keys ≤ total list keys
    → All (λ key. lookup_kv_key list key ≢ none) keys
unfolding total
found-total list [] h l = tt
found-total list (key ∷ keys) h l =
    let t = total-le list keys h.1 in
    let rest = found-total list keys h.1 (omega (arith, l, h.0)) in
    elim (lookup-count key list) [
      | inl (e, z) ↦ absurd (omega (arith, l, t, z))
      | inr (e, z) ↦ (e, rest)
    ]

total-found :
    (list : List KeyVal) (keys : List Bytes)
    → All (λ key. lookup_kv_key list key ≢ none) keys
    → length keys ≤ total list keys
unfolding total
total-found list [] h = omega arith
total-found list (key ∷ keys) h = elim (lookup-count key list) [
  | inl (e, z) ↦ absurd (h.0 e)
  | inr (e, z) ↦ omega (arith, z, total-found list keys h.1)
]

count_keys-total : (list : List KeyVal) → count_keys list ≡ total list wanted
unfolding count_keys total
count_keys-total list = omega arith

-- In a list that has none of the wanted keys twice, the check of an announce passes exactly when the
-- lookup finds all of the six keys that `http_build_peer_req` reads.
pub check_keys-distinct :
    (list : List KeyVal)
    → All (λ key. count_key key list ≤ 1) wanted
    → (check_keys announce list ≡ some list) ↔ All (λ key. lookup_kv_key list key ≢ none) wanted
check_keys-distinct list h =
    let e = count_keys-total list in
    let i = check_keys_iff list in
    (
      λ c. found-total list wanted h (omega (arith, i.0 c, e)),
      λ f. i.1 (omega (arith, total-found list wanted f, e)),
    )

-- Only entries with the key `port`, with any values.
abbrev pub ArePorts : List KeyVal → Type 0
ArePorts = All (λ np. np.key ≡ codes "port")

count_key-port : (list : List KeyVal) → ArePorts list → length list ≤ count_key (codes "port") list
unfolding count_key bytes_eq
count_key-port [] a = omega arith
count_key-port (np ∷ list) (e, a) = rw e (omega (arith, count_key-port list a))

count_keys-port : (list : List KeyVal) → ArePorts list → length list ≤ count_keys list
unfolding count_keys
count_keys-port list a = omega (arith, count_key-port list a)

lookup-port : (list : List KeyVal) → ArePorts list → lookup_kv_key list (codes "info_hash") ≡ none
unfolding lookup_kv_key bytes_eq
lookup-port [] a = refl
lookup-port (np ∷ list) (e, a) = rw e (lookup-port list a)

-- A list of six or more entries that all have the key `port`, with any values, passes the check of an
-- announce, and building a request from it reads through a NULL pointer.
pub check_keys-repeated :
    (unescape : Bytes → Option Bytes) (list : List KeyVal)
    → 6 ≤ length list
    → ArePorts list
    → (check_keys announce list ≡ some list) × (build_peer_req unescape list ≡ none)
unfolding build_peer_req
check_keys-repeated unescape list h a = (
  (check_keys_iff list).1 (omega (arith, h, count_keys-port list a)),
  rw (lookup-port list a) refl,
)
