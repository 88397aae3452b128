-- ===== src/Heap.antt =====
-- Allocated objects that point to one another, for the functions that free them. An object is its
-- words in the order of the struct's fields, but a link to the next entry of a list comes first; a
-- pointer is the address of the object. What the chars of an object are is no matter here.
pub mod Overlay
pub mod Each
pub mod Removing
pub mod Picked
use ttracker.Base.{
  ℕ, zero, suc, ◌≡◌, ◌≢◌, Bool, Option, none, some, List, [], ◌∷◌, ◌==◌, if◌then◌else◌, set,
  get_elem?,
}

abbrev pub null : ℕ
null = 0

abbrev pub Words : Type 0
Words = List ℕ

-- What is allocated at an address.
abbrev pub Heap : Type 0
Heap = ℕ → Option Words

-- `fault` is undefined behaviour: an access to what is not allocated, or a second `free`.
-- `exited` is the end of the program.
pub data Run (A : Type 0) : Type 0 where
  done : A → Heap → Run A
  fault : Run A
  exited : Run A
  out_of_fuel : Run A

abbrev pub Command : Type 0 → Type 0
Command A = Heap → Run A

abbrev pub Effect : Type 0
Effect = Command (Unit {0})

abbrev pub skip : Effect
skip h = done tt h

module _ {A B : Type 0} where
  abbrev pub go_on : Run A → (A → Command B) → Run B
  go_on (done a h) k = k a h
  go_on fault k = fault
  go_on exited k = exited
  go_on out_of_fuel k = out_of_fuel

  infixl 5 ◌>>=◌ ◌>>◌
  abbrev pub ◌>>=◌ : Command A → (A → Command B) → Command B
  c >>= k = λ h. go_on (c h) k

  abbrev pub ◌>>◌ : Command A → Command B → Command B
  c >> d = λ h. go_on (c h) (λ _. d)

unfoldable pub put : Heap → ℕ → Option Words → Heap
put h p o a = if a == p then o else h a

-- Word `i` of the object at `p`.
unfoldable pub load : ℕ → ℕ → Command ℕ
load p i h = elim (h p) [
  | none ↦ fault
  | some o ↦ elim (get_elem? o i) [ none ↦ fault | some v ↦ done v h ]
]

unfoldable pub set_word : ℕ → ℕ → ℕ → Effect
set_word p i v h = elim (h p) [ none ↦ fault | some o ↦ done tt (put h p (some (set o i v))) ]

-- free(3), on a pointer that is not NULL
unfoldable pub free : ℕ → Effect
free p h = elim (h p) [ none ↦ fault | some o ↦ done tt (put h p none) ]

-- `if (p != NULL) c;`
unfoldable pub unless_null : ℕ → Effect → Effect
unless_null p c = if p == null then skip else c

-- The loops that free a list: `q = NEXT(p); body(p); p = q;`
unfoldable pub each : (ℕ → Effect) → ℕ → ℕ → Effect
each body zero p = λ h. out_of_fuel
each body (suc k) p =
    let rest : Effect = load p 0 >>= λ q. (body p >> each body k q) in
    if p == null then skip else rest

-- The loop, LIST_INIT or TAILQ_INIT of the head, whose first word is the link to the first entry, and
-- `free` of it.
unfoldable pub free_chain : (ℕ → Effect) → ℕ → ℕ → Effect
free_chain body k head = do p ← load head 0; each body k p; set_word head 0 null; free head
