-- ===== src/Free/Values/Trees.antt =====
-- Values on the heap, and that all of their objects are freed.
use ttracker.Base.{
  ℕ, zero, suc, ◌+◌, ◌≤◌, ◌<◌, ◌≡◌, refl, none, List, [], ◌∷◌, ◌++◌, All, length, arith,
}
use ttracker.Heap.{Words, Heap, done}
use ttracker.Heap.Overlay.{
  Objects, overlay, AreFresh, overlay-append, AreFresh-append, free-first, load-middle,
}
use ttracker.Heap.Each.{Node, first, objects, IsFreed, free_chain_lem}
use ttracker.Free.Values.{
  t_bytestring, t_int, t_list, t_dict, t_byte, free_item, free_pair, free_with_keys,
}

-- A value with the addresses of its objects, and of its entries. The chars of a text are no matter.
mutual
  pub data Tree : Type 0 where
    text byte : ℕ → Tree
    number : ℕ → Tree
    list : ℕ → Items → Tree
    dict : ℕ → Entries → Tree

  pub data Items : Type 0 where
    no_item : Items
    item : (entry : ℕ) → Tree → Items → Items

  pub data Entries : Type 0 where
    no_entry : Entries
    entry : (at key : ℕ) → Tree → Entries → Entries

-- The words data and type.
abbrev pub data_of : Tree → ℕ
data_of (text d) = d
data_of (byte d) = d
data_of (number n) = n
data_of (list d xs) = d
data_of (dict d xs) = d

abbrev pub type_of : Tree → ℕ
type_of (text d) = t_bytestring
type_of (byte d) = t_byte
type_of (number n) = t_int
type_of (list d xs) = t_list
type_of (dict d xs) = t_dict

-- The objects of a value.
unfoldable mutual
  pub tree_objects : Tree → Objects
  tree_objects (text d) = (d, []) ∷ []
  tree_objects (byte d) = (d, []) ∷ []
  tree_objects (number n) = []
  tree_objects (list d xs) = objects (item_nodes xs) ++ (d, first (item_nodes xs) ∷ []) ∷ []
  tree_objects (dict d xs) = objects (entry_nodes xs) ++ (d, first (entry_nodes xs) ∷ []) ∷ []

  pub item_nodes : Items → List Node
  item_nodes no_item = []
  item_nodes (item e v xs) =
      record { at = e; fields = data_of v ∷ type_of v ∷ []; own = tree_objects v } ∷ item_nodes xs

  pub entry_nodes : Entries → List Node
  entry_nodes no_entry = []
  entry_nodes (entry e key v xs) =
      record { at = e; fields = data_of v ∷ key ∷ type_of v ∷ []; own = (key, []) ∷ tree_objects v }
      ∷ entry_nodes xs

-- The fuel that a value takes.
unfoldable mutual
  pub tree_size : Tree → ℕ
  tree_size (text d) = 1
  tree_size (byte d) = 1
  tree_size (number n) = 1
  tree_size (list d xs) = suc (items_size xs)
  tree_size (dict d xs) = suc (entries_size xs)

  pub items_size : Items → ℕ
  items_size no_item = 1
  items_size (item e v xs) = suc (tree_size v + items_size xs)

  pub entries_size : Entries → ℕ
  entries_size no_entry = 1
  entries_size (entry e key v xs) = suc (tree_size v + entries_size xs)

items-length : (xs : Items) → length (item_nodes xs) < items_size xs
unfolding item_nodes items_size
items-length no_item = omega arith
items-length (item e v xs) = omega (arith, items-length xs)

entries-length : (xs : Entries) → length (entry_nodes xs) < entries_size xs
unfolding entry_nodes entries_size
entries-length no_entry = omega arith
entries-length (entry e key v xs) = omega (arith, entries-length xs)

free_text :
    (k d : ℕ) (g : Heap)
    → g d ≡ none
    → free_with_keys (suc k) d t_bytestring (overlay ((d, []) ∷ []) g) ≡ done tt g
unfolding free_with_keys
free_text k d g e = free-first d [] g e

-- One entry of a list, of a dictionary.
free_item_lem :
    (k e n : ℕ) (v : Tree) (h : Heap)
    → AreFresh (tree_objects v ++ (e, n ∷ data_of v ∷ type_of v ∷ []) ∷ []) h
    → ((g : Heap)
        → AreFresh (tree_objects v) g
        → free_with_keys k (data_of v) (type_of v) (overlay (tree_objects v) g) ≡ done tt g)
    → free_item
        (free_with_keys k)
        e
        (overlay (tree_objects v ++ (e, n ∷ data_of v ∷ type_of v ∷ []) ∷ []) h)
      ≡ done tt h
unfolding free_item
free_item_lem k e n v h f freed =
    let w : Words = n ∷ data_of v ∷ type_of v ∷ [] in
    let own = tree_objects v in
    let (now, (_, ee, _)) = AreFresh-append own ((e, w) ∷ []) h f in
    rw
      (
        load-middle own e 1 w (data_of v) [] h f refl,
        load-middle own e 2 w (type_of v) [] h f refl,
        overlay-append own ((e, w) ∷ []) h,
        freed (overlay ((e, w) ∷ []) h) now,
      )
      (free-first e w h ee)

free_pair_lem :
    (k e key n : ℕ) (v : Tree) (h : Heap)
    → AreFresh ((key, []) ∷ tree_objects v ++ (e, n ∷ data_of v ∷ key ∷ type_of v ∷ []) ∷ []) h
    → ((g : Heap)
        → AreFresh (tree_objects v) g
        → free_with_keys (suc k) (data_of v) (type_of v) (overlay (tree_objects v) g) ≡ done tt g)
    → free_pair
        (free_with_keys (suc k))
        e
        (overlay ((key, []) ∷ tree_objects v ++ (e, n ∷ data_of v ∷ key ∷ type_of v ∷ []) ∷ []) h)
      ≡ done tt h
unfolding free_pair
free_pair_lem k e key n v h (kn, ke, f) freed =
    let w : Words = n ∷ data_of v ∷ key ∷ type_of v ∷ [] in
    let own = tree_objects v in
    let (now, (_, ee, _)) = AreFresh-append own ((e, w) ∷ []) h f in
    rw
      (
        load-middle ((key, []) ∷ own) e 2 w key [] h (kn, ke, f) refl,
        free_text k key (overlay (own ++ (e, w) ∷ []) h) ke,
        load-middle own e 1 w (data_of v) [] h f refl,
        load-middle own e 3 w (type_of v) [] h f refl,
        overlay-append own ((e, w) ∷ []) h,
        freed (overlay ((e, w) ∷ []) h) now,
      )
      (free-first e w h ee)

-- The whole value.
mutual
  unfolding tree_objects item_nodes entry_nodes tree_size items_size entries_size free_with_keys

  tree_freed :
      (k : ℕ) (v : Tree) (g : Heap)
      → tree_size v ≤ k
      → AreFresh (tree_objects v) g
      → free_with_keys k (data_of v) (type_of v) (overlay (tree_objects v) g) ≡ done tt g
  tree_freed zero (text d) g l f = absurd (omega arith)
  tree_freed zero (byte d) g l f = absurd (omega arith)
  tree_freed zero (number n) g l f = absurd (omega arith)
  tree_freed zero (list d xs) g l f = absurd (omega arith)
  tree_freed zero (dict d xs) g l f = absurd (omega arith)
  tree_freed (suc k) (text d) g l (_, e, _) = free-first d [] g e
  tree_freed (suc k) (byte d) g l (_, e, _) = free-first d [] g e
  tree_freed (suc k) (number n) g l f = refl
  tree_freed (suc k) (list d xs) g l f =
      free_chain_lem (free_item (free_with_keys k)) d [] (item_nodes xs) k g
        (omega (arith, items-length xs)) (items-IsFreed k xs (omega arith)) f
  tree_freed (suc k) (dict d xs) g l f =
      free_chain_lem (free_pair (free_with_keys k)) d [] (entry_nodes xs) k g
        (omega (arith, entries-length xs)) (entries-IsFreed k xs (omega arith)) f

  items-IsFreed :
      (k : ℕ) (xs : Items)
      → items_size xs ≤ k
      → All (IsFreed (free_item (free_with_keys k))) (item_nodes xs)
  items-IsFreed k no_item l = tt
  items-IsFreed k (item e v xs) l = (
    λ n h f. free_item_lem k e n v h f (λ g. tree_freed k v g (omega arith)),
    items-IsFreed k xs (omega arith),
  )

  entries-IsFreed :
      (k : ℕ) (xs : Entries)
      → entries_size xs ≤ k
      → All (IsFreed (free_pair (free_with_keys k))) (entry_nodes xs)
  entries-IsFreed k no_entry l = tt
  entries-IsFreed zero (entry e key v xs) l = absurd (omega arith)
  entries-IsFreed (suc k) (entry e key v xs) l = (
    λ n h f. free_pair_lem k e key n v h f (λ g. tree_freed (suc k) v g (omega arith)),
    entries-IsFreed (suc k) xs (omega arith),
  )

-- On a heap that has a value of the format, with the keys, the texts, the entries and the lists in it,
-- beside any objects at other addresses, `bencode_free_with_keys` ends with every object of the value
-- freed once, and leaves exactly the other objects. Fuel as the size of the value is enough.
pub free_with_keys_lem :
    (v : Tree) (k : ℕ) (g : Heap)
    → tree_size v ≤ k
    → AreFresh (tree_objects v) g
    → free_with_keys k (data_of v) (type_of v) (overlay (tree_objects v) g) ≡ done tt g
free_with_keys_lem v k g l f = tree_freed k v g l f
