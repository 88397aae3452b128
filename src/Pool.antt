-- ===== src/Pool.antt =====
-- What buffer_pool.c and td_pool.c do alike: a list of entries, each with a pointer that is handed
-- out and a status. The files of the two pools have their functions.
pub mod Entries
pub mod Statuses
pub mod Counts
pub mod Weights
pub mod Sound
use ttracker.Base.Int.{ℤ, pos, eq_ℤ, leb_ℤ, ◌+ℤ◌, ◌-ℤ◌}
use ttracker.Base.{
  ℕ, suc, ◌+◌, ◌≡◌, ◌≢◌, Bool, true, false, Option, none, some, List, [], ◌∷◌, All, ◌==◌,
  if◌then◌else◌, length, ◌*◌,
}

-- STATUS_FREE and STATUS_INUSE
pub data Status : Type 0 where
  free inuse : Status

abbrev pub is_free : Status → Bool
is_free free = true
is_free inuse = false

-- A pool entry: the pointer that it hands out, with what stands there.
pub record Entry {ℓ} (A : Type ℓ) : Type ℓ where
  pub ptr : ℕ
  pub item : A
  pub status : Status

module _ {ℓ} {A : Type ℓ} where
  -- The first entry that is free is put to use, and its pointer is the result.
  unfoldable pub take_free : List (Entry A) → Option (ℕ × List (Entry A))
  take_free [] = none
  take_free (e ∷ es) =
      let rest = take_free es in
      if is_free e.status
      then some (e.ptr, record e { status = inuse } ∷ es)
      else elim rest [ none ↦ none | some (p, es') ↦ some (p, e ∷ es') ]

  -- The loop of the `join` functions: the entry with the pointer, if it is in use, is made free, and
  -- what stands there is reset. A pointer that is not found ends in `abort`, and so does the
  -- assertion where its entry is free.
  unfoldable pub give_back : (A → A) → ℕ → List (Entry A) → Option (List (Entry A))
  give_back reset p [] = none
  give_back reset p (e ∷ es) =
      let rest = give_back reset p es in
      if e.ptr == p
      then (if is_free e.status
          then none
          else some (record e { item = reset e.item; status = free } ∷ es))
      else elim rest [ none ↦ none | some es' ↦ some (e ∷ es') ]

  -- `count` fresh entries in front, the last one first.
  unfoldable pub insert_fresh : (ℕ → A) → ℕ → ℕ → List (Entry A) → List (Entry A)
  insert_fresh make next ℕ.zero es = es
  insert_fresh make next (suc count) es =
      insert_fresh make (suc next) count
        (record { ptr = next; item = make next; status = free } ∷ es)

  -- The entry that a pointer stands for.
  abbrev pub status_of : ℕ → List (Entry A) → Option Status
  status_of p [] = none
  status_of p (e ∷ es) = if e.ptr == p then some e.status else status_of p es

  abbrev pub in_use : List (Entry A) → ℕ
  in_use [] = 0
  in_use (e ∷ es) = (if is_free e.status then 0 else 1) + in_use es

  abbrev pub AreDistinct : List (Entry A) → Type ℓ
  AreDistinct [] = Unit {ℓ}
  AreDistinct (e ∷ es) = All (λ d. d.ptr ≢ e.ptr) es × AreDistinct es

-- A pool with its counters, `int`s both. `next` is the pointer that the allocator hands out next.
pub record Pool {ℓ} (A : Type ℓ) : Type ℓ where
  pub pool : List (Entry A)
  pub inuse_count : ℤ
  pub num : ℤ
  pub next : ℕ

-- What a call of the `get` functions does: it hands out a pointer, NULL for `none`, or it stands in
-- pthread_cond_wait, with the mutex released.
pub data Attempt {ℓ} (A : Type ℓ) : Type ℓ where
  waits : Pool A → Attempt A
  returns : Option ℕ → Pool A → Attempt A

-- `rounds` times `amp` entries are the most that there are.
module _ {ℓ} {A : Type ℓ} (rounds amp : ℕ) (make : ℕ → A) where
  unfoldable pub populate : Pool A → Bool × Pool A
  populate p = if eq_ℤ p.num (pos (rounds * amp)) then (false, p) else (
    true,
    record {
      pool = insert_fresh make p.next amp p.pool;
      inuse_count = p.inuse_count;
      num = p.num +ℤ pos amp;
      next = p.next + amp;
    },
  )

  unfoldable pub init : Pool A
  init = (populate (record { pool = []; inuse_count = pos 0; num = pos 0; next = 0 })).1

module _ {ℓ} {A : Type ℓ} where
  -- LIST_FOREACH up to the first free entry
  unfoldable pub scan : Pool A → Attempt A
  scan p = elim (take_free p.pool) [
    | none ↦ returns none p
    | some (ptr, es) ↦
        returns (some ptr) (record p { pool = es; inuse_count = p.inuse_count +ℤ pos 1 })
  ]

  -- The test of the waiting loop, which is made on entry and again at every signal, and what follows
  -- the loop.
  unfoldable pub wait_then_scan : Pool A → Attempt A
  wait_then_scan p = if eq_ℤ p.inuse_count p.num then waits p else scan p

  unfoldable pub get : (rounds amp : ℕ) → (ℕ → A) → Pool A → Attempt A
  get rounds amp make p =
      if leb_ℤ (p.num -ℤ p.inuse_count) (pos 0)
      then (let r = populate rounds amp make p in if r.0 then scan r.1 else wait_then_scan r.1)
      else scan p

  unfoldable pub join : (A → A) → ℕ → Pool A → Option (Pool A)
  join reset ptr p = elim (give_back reset ptr p.pool) [
    | none ↦ none
    | some es ↦ some (record p { pool = es; inuse_count = p.inuse_count -ℤ pos 1 })
  ]
