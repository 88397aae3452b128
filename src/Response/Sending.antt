-- ===== src/Response/Sending.antt =====
-- The loop that writes a response to the client.
use ttracker.Base.{
  ℕ, zero, suc, ◌+◌, ◌-◌, ◌<◌, ◌≤◌, ◌≡◌, ◌⊎◌, inl, inr, refl, sym, ap, ◌∙◌, true, false, Option,
  none, some, List, [], ◌∷◌, ◌++◌, ltb, ◌==◌, if◌then◌else◌, length, take, drop, arith, Bool-cases,
  Option-cases,
}
use ttracker.Base.Int.{pos, negsuc}
use ttracker.Memory.{Object, read_at}
use ttracker.Memory.Laws.{take-take}
use ttracker.Response.{Delivery, send}

-- What `write` documents: of a positive number of chars it writes at least one and at most all, or
-- it gives -1.
unfoldable pub IsWrite : (ℕ → ℕ → Option ℕ) → Type 0
IsWrite write = (i count n : ℕ) → 0 < count → write i count ≡ some n → (1 ≤ n) × (n ≤ count)

-- `n` calls that gave -1, the first of them call `i` or a later one.
pub Refusals : (ℕ → ℕ → Option ℕ) → ℕ → ℕ → Type 0
Refusals write i zero = Unit
Refusals write i (suc n) =
    (j : ℕ) × (i ≤ j)
    × ((count : ℕ) × (0 < count) × (write j count ≡ none))
    × Refusals write (j + 1) n

earlier : (write : ℕ → ℕ → Option ℕ) (i n : ℕ) → Refusals write (i + 1) n → Refusals write i n
unfolding Refusals
earlier write i zero r = tt
earlier write i (suc n) r = (r.0, omega (arith, r.1), r.2, r.3)

-- All the chars were written, and their number is the result.
pub record IsComplete (p : Object) (outsiz : ℕ) (d : Delivery) : Type 0 where
  pub result : d.result ≡ pos outsiz
  pub whole : d.client ≡ take outsiz p

-- The result is -1 after the given number of calls that gave -1, and the client has some of the
-- chars.
pub record IsFailed (write : ℕ → ℕ → Option ℕ) (p : Object) (outsiz i tries : ℕ) (d : Delivery)
    : Type 0 where
  pub result : d.result ≡ negsuc 0
  pub refused : Refusals write i tries
  pub sent : ℕ
  pub less : sent < outsiz
  pub part : d.client ≡ take sent p

module _ {ℓ} {A : Type ℓ} where
  take-nil : (n : ℕ) → take {A = A} n [] ≡ []
  take-nil zero = refl
  take-nil (suc n) = refl

  -- The next chars behind those that were taken.
  take-more :
      (xs : List A) (w c r : ℕ) → r ≤ c → take w xs ++ take r (take c (drop w xs)) ≡ take (w + r) xs
  take-more xs zero c r h =
      let e : r ≡ zero + r = omega arith in take-take xs r c h ∙ ap (λ n. take n xs) e
  take-more [] (suc w) c r h =
      ap (λ t. take r t) (take-nil c) ∙ take-nil r ∙ sym (take-nil (suc w + r))
  take-more (x ∷ xs) (suc w) c r h =
      let e : suc (w + r) ≡ suc w + r = omega arith in
      ap (λ t. x ∷ t) (take-more xs w c r h) ∙ ap (λ n. take n (x ∷ xs)) e

read_at-inside :
    (p : Object) (w n : ℕ) → w + n ≤ length p → read_at p w n ≡ some (take n (drop w p))
unfolding read_at
read_at-inside p w n h = ground (arith, h)

module _ (write : ℕ → ℕ → Option ℕ) (p : Object) (outsiz : ℕ) (room : outsiz ≤ length p) where
  send-last :
      (f i written : ℕ)
      → written < outsiz
      → write i (outsiz - written) ≡ none
      → send write p outsiz (suc f) i written 1 (take written p)
        ≡ some (record { result = negsuc 0; client = take written p })
  unfolding send
  send-last f i written h e =
      rw (read_at-inside p written (outsiz - written) (omega (arith, h, room)), e) refl

  send-refused :
      (f i written tries : ℕ)
      → written < outsiz
      → write i (outsiz - written) ≡ none
      → send write p outsiz (suc f) i written (suc (suc tries)) (take written p)
        ≡ send write p outsiz f (i + 1) written (suc tries) (take written p)
  unfolding send
  send-refused f i written tries h e =
      let left : suc (suc tries) - 1 ≡ suc tries = omega arith in
      let more : (suc tries == 0) ≡ false = ground arith in
      let under : ltb written outsiz ≡ true = ground (arith, h) in
      rw
        (read_at-inside p written (outsiz - written) (omega (arith, h, room)), e, left, more, under)
        refl

  send-wrote :
      (f i written tries n : ℕ)
      → written < outsiz
      → n ≤ outsiz - written
      → write i (outsiz - written) ≡ some n
      → send write p outsiz (suc f) i written tries (take written p) ≡ (
          if ltb (written + n) outsiz
          then send write p outsiz f (i + 1) (written + n) tries (take (written + n) p)
          else some (record { result = pos (written + n); client = take (written + n) p }))
  unfolding send
  send-wrote f i written tries n h l e =
      rw
        (
          read_at-inside p written (outsiz - written) (omega (arith, h, room)),
          e,
          take-more p written (outsiz - written) n l,
        )
        refl

  Runs : ℕ → ℕ → ℕ → ℕ → Type 0
  Runs f i written tries =
      (d : Delivery) × (send write p outsiz f i written tries (take written p) ≡ some d)
      × (IsComplete p outsiz d ⊎ IsFailed write p outsiz i tries d)

  IsFailed-earlier :
      (i tries : ℕ) (d : Delivery)
      → IsFailed write p outsiz (i + 1) tries d
      → IsFailed write p outsiz i tries d
  IsFailed-earlier i tries d v = record {
    result = v.result;
    refused = earlier write i tries v.refused;
    sent = v.sent;
    less = v.less;
    part = v.part;
  }

  after_refusal :
      (f i written tries : ℕ)
      → written < outsiz
      → write i (outsiz - written) ≡ none
      → ((t : ℕ) → suc t ≡ tries → Runs f (i + 1) written tries)
      → Runs (suc f) i written (suc tries)
  unfolding Refusals Runs
  after_refusal f i written zero h e more = (
    _,
    send-last f i written h e,
    inr (record {
      result = refl;
      refused = (i, omega arith, (outsiz - written, omega (arith, h), e), tt);
      sent = written;
      less = h;
      part = refl;
    }),
  )
  after_refusal f i written (suc t) h e more =
      let (d, r, o) = more t refl in
      (
        d,
        send-refused f i written t h e ∙ r,
        elim o [
          | inl c ↦ inl c
          | inr v ↦ inr (record {
            result = v.result;
            refused = (i, omega arith, (outsiz - written, omega (arith, h), e), v.refused);
            sent = v.sent;
            less = v.less;
            part = v.part;
          })
        ],
      )

  after_write :
      (f i written tries n : ℕ)
      → written < outsiz
      → n ≤ outsiz - written
      → write i (outsiz - written) ≡ some n
      → (written + n < outsiz → Runs f (i + 1) (written + n) tries)
      → Runs (suc f) i written tries
  unfolding Runs
  after_write f i written tries n h l e more =
      let step = send-wrote f i written tries n h l e in
      elim (Bool-cases (ltb (written + n) outsiz)) [
        | inl b ↦
            let (d, r, o) = more (ground (arith, b)) in
            (
              d,
              step ∙ rw b r,
              elim o [ inl c ↦ inl c | inr v ↦ inr (IsFailed-earlier i tries d v) ],
            )
        | inr b ↦
            let all : written + n ≡ outsiz = ground (arith, b, l, h) in
            (
              _,
              step ∙ rw b refl,
              inl (record { result = ap (λ k. pos k) all; whole = ap (λ k. take k p) all }),
            )
      ]

  send-Runs :
      (f i written tries : ℕ)
      → IsWrite write
      → written < outsiz
      → 0 < tries
      → outsiz - written + tries ≤ f
      → Runs f i written tries
  unfolding IsWrite
  send-Runs zero i written tries ok h t fuel = absurd (omega (arith, h, fuel))
  send-Runs (suc f) i written zero ok h t fuel = absurd (omega (arith, t))
  send-Runs (suc f) i written (suc tries) ok h t fuel =
      elim (Option-cases (write i (outsiz - written))) [
        | inl e ↦
            after_refusal f i written tries h e (λ k s.
              send-Runs f (i + 1) written tries ok h (omega (arith, s)) (omega (arith, fuel)))
        | inr (n, e) ↦
            let l = ok i (outsiz - written) n (omega (arith, h)) e in
            after_write f i written (suc tries) n h l.1 e (λ b.
              send-Runs f (i + 1) (written + n) (suc tries) ok b (omega arith)
                (omega (arith, fuel, l.0, h)))
      ]

-- For any `write` that gives -1 or a number from 1 to the number of chars that it is asked for, the
-- loop ends within as many calls as there are chars to send and five more. Either the client has
-- exactly the chars up to the cursor and the result is their number; or there were five calls that
-- gave -1, each after the one before, the result is -1, and the client has a proper prefix of the
-- chars.
pub send-terminates :
    (write : ℕ → ℕ → Option ℕ) (p : Object) (outsiz : ℕ)
    → IsWrite write
    → 0 < outsiz
    → outsiz ≤ length p
    → (d : Delivery) × (send write p outsiz (outsiz + 5) 0 0 5 [] ≡ some d)
      × (IsComplete p outsiz d ⊎ IsFailed write p outsiz 0 5 d)
unfolding Runs
send-terminates write p outsiz ok h room =
    send-Runs write p outsiz room (outsiz + 5) 0 0 5 ok h (omega arith) (omega arith)
