-- ===== src/Request/Clean.antt =====
-- What the checks of a request let pass.
use ttracker.Base.{
  ℕ, zero, suc, ◌^◌, ◌-◌, ◌<◌, ◌≤◌, ◌≡◌, ◌⊎◌, ◌↔◌, inl, inr, refl, sym, ap, ◌∙◌, Bool, true, false,
  Option, none, some, [], ◌∷◌, ◌++◌, All, Bytes, codes, arith, length, bytes_eq_iff, if◌then◌else◌,
  Bool-cases,
}
use ttracker.Base.Int.{pos, ◌≤ℤ◌}
use ttracker.Memory.{Object, cells}
use ttracker.Request.{
  PeerReq, Verdict, accepted, rejected, info_hash, isxdigit, sanitize_info_hash, all_graph,
  known_event, sanitize_fields, sanitize_peer_req,
}

unfoldable pub IsEvent : Bytes → Type 0
IsEvent e =
    (e ≡ codes "count") ⊎ ((e ≡ codes "start") ⊎ ((e ≡ codes "stop") ⊎ (e ≡ codes "complete")))

-- A request as an announce of the protocol makes it, with the hash that its array starts with.
pub record IsClean (ctx : PeerReq) : Type 0 where
  pub peer_id : All (λ c. (33 ≤ c) × (c ≤ 126)) ctx.peer_id
  pub low : pos 1024 ≤ℤ ctx.port
  pub high : ctx.port ≤ℤ pos 65535
  pub downloaded : ctx.downloaded < 2 ^ 64 - 1
  pub uploaded : ctx.uploaded < 2 ^ 64 - 1
  pub left : ctx.left < 2 ^ 64 - 1
  pub event : IsEvent ctx.event

all_graph_iff : (s : Bytes) → (all_graph s ≡ true) ↔ All (λ c. (33 ≤ c) × (c ≤ 126)) s
unfolding all_graph
all_graph_iff [] = (λ _. tt, λ _. refl)
all_graph_iff (c ∷ s) = ground (arith, all_graph_iff s)

known_event_iff : (e : Bytes) → (known_event e ≡ true) ↔ IsEvent e
unfolding known_event IsEvent
known_event_iff e = ground (
  arith,
  bytes_eq_iff e (codes "count"),
  bytes_eq_iff e (codes "start"),
  bytes_eq_iff e (codes "stop"),
  bytes_eq_iff e (codes "complete"),
)

sanitize_fields_iff : (ctx : PeerReq) → (sanitize_fields ctx ≡ accepted) ↔ IsClean ctx
unfolding sanitize_fields
sanitize_fields_iff ctx = (
  λ h. record {
    peer_id = (all_graph_iff ctx.peer_id).0 (ground arith);
    low = ground arith;
    high = ground arith;
    downloaded = ground arith;
    uploaded = ground arith;
    left = ground arith;
    event = (known_event_iff ctx.event).0 (ground arith);
  },
  λ c. ground (
    arith,
    (all_graph_iff ctx.peer_id).1 c.peer_id,
    (known_event_iff ctx.event).1 c.event,
    c.low,
    c.high,
    c.downloaded,
    c.uploaded,
    c.left,
  ),
)

-- A lower or upper case hexadecimal digit.
abbrev pub IsHex : ℕ → Type 0
IsHex c = ((48 ≤ c) × (c ≤ 57)) ⊎ (((65 ≤ c) × (c ≤ 70)) ⊎ ((97 ≤ c) × (c ≤ 102)))

isxdigit_iff : (c : ℕ) → (isxdigit c ≡ true) ↔ IsHex c
isxdigit_iff c = ground arith

-- The hash of a request: `n` hexadecimal digits in front.
abbrev pub StartsHex : Object → ℕ → Type 0
StartsHex m n = (h : Bytes) × (rest : Object) × (length h ≡ n) × All IsHex h × (m ≡ cells h ++ rest)

sanitize_info_hash-hex : (m : Object) (n : ℕ) → sanitize_info_hash m n ≡ some true → StartsHex m n
unfolding sanitize_info_hash
sanitize_info_hash-hex m zero e = ([], m, refl, tt, refl)
sanitize_info_hash-hex [] (suc n) e = absurd (cc)
sanitize_info_hash-hex (none ∷ m) (suc n) e = absurd (cc)
sanitize_info_hash-hex (some c ∷ m) (suc n) e = elim (Bool-cases (isxdigit c)) [
  | inl x ↦
      let (h, rest, l, a, q) = sanitize_info_hash-hex m n (ground arith) in
      (c ∷ h, rest, omega (arith, l), ((isxdigit_iff c).0 x, a), ap (λ k. some c ∷ k) q)
  | inr x ↦ absurd (ground arith)
]

hex-sanitize_info_hash :
    (h : Bytes) (rest : Object)
    → All IsHex h
    → sanitize_info_hash (cells h ++ rest) (length h) ≡ some true
unfolding sanitize_info_hash
hex-sanitize_info_hash [] rest a = refl
hex-sanitize_info_hash (c ∷ h) rest a =
    rw ((isxdigit_iff c).1 a.0) (hex-sanitize_info_hash h rest a.1)

verdict_of :
    (ctx : PeerReq) (r : Option Bool)
    → (elim r as (λ _. Option Verdict) [
      | none ↦ none
      | some hex ↦ some (if hex then sanitize_fields ctx else rejected info_hash)
    ])
      ≡ some accepted
    → (r ≡ some true) × (sanitize_fields ctx ≡ accepted)
verdict_of ctx none e = absurd (cc)
verdict_of ctx (some true) e = (refl, ground (arith, e))
verdict_of ctx (some false) e = absurd (ground arith)

pub StartsHex-sanitize_info_hash :
    (m : Object) → StartsHex m 40 → sanitize_info_hash m 40 ≡ some true
StartsHex-sanitize_info_hash m (h, rest, l, a, q) =
    ap (λ m'. sanitize_info_hash m' 40) q
    ∙ ap (λ n. sanitize_info_hash (cells h ++ rest) n) (sym l)
    ∙ hex-sanitize_info_hash h rest a

accepts :
    (ctx : PeerReq)
    → StartsHex ctx.info_hash 40
    → sanitize_fields ctx ≡ accepted
    → sanitize_peer_req ctx ≡ some accepted
unfolding sanitize_peer_req
accepts ctx s f =
    let hex = StartsHex-sanitize_info_hash ctx.info_hash s in rw (sanitize_peer_req, hex, f) refl

-- The checks accept a request exactly when its hash starts with forty hexadecimal digits, its peer
-- id is of visible ASCII characters, its port is from 1024 to 65535, its three counts are not the
-- greatest value, and its event is one of the four. For the rest see `IsClean`.
pub sanitize_peer_req_iff :
    (ctx : PeerReq)
    → (sanitize_peer_req ctx ≡ some accepted) ↔ (StartsHex ctx.info_hash 40 × IsClean ctx)
unfolding sanitize_peer_req
sanitize_peer_req_iff ctx = (
  λ e.
      let (t, f) = verdict_of ctx (sanitize_info_hash ctx.info_hash 40) e in
      (sanitize_info_hash-hex ctx.info_hash 40 t, (sanitize_fields_iff ctx).0 f),
  λ c. accepts ctx c.0 ((sanitize_fields_iff ctx).1 c.1),
)
