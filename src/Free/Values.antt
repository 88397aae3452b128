-- ===== src/Free/Values.antt =====
-- bncode.c: `bencode_free_with_keys`, on a value of the format that is kept in lists of entries.
pub mod Trees
use ttracker.Base.{ℕ, zero, suc, [], ◌∷◌, ◌==◌, if◌then◌else◌}
use ttracker.Heap.{null, Effect, out_of_fuel, load, free, free_chain, skip, ◌>>=◌, ◌>>◌}

-- T_BYTESTRING, T_INT, T_LIST, T_DICT and T_BYTE
abbrev pub t_bytestring : ℕ
t_bytestring = 0

abbrev pub t_int : ℕ
t_int = 1

abbrev pub t_list : ℕ
t_list = 2

abbrev pub t_dict : ℕ
t_dict = 3

abbrev pub t_byte : ℕ
t_byte = 4

-- The bodies of the two loops, with the function itself for the calls that it makes. An entry of a
-- list has the words data and type, one of a dictionary data, key and type.
unfoldable pub free_item : (ℕ → ℕ → Effect) → ℕ → Effect
free_item free_value ple = do value ← load ple 1; type ← load ple 2; free_value value type; free ple

unfoldable pub free_pair : (ℕ → ℕ → Effect) → ℕ → Effect
free_pair free_value pde = do
  key ← load pde 2
  free_value key t_bytestring
  value ← load pde 1
  type ← load pde 3
  free_value value type
  free pde

-- The fuel is for the depth of the value and for the entries of each of its lists.
unfoldable pub free_with_keys : ℕ → ℕ → ℕ → Effect
free_with_keys zero value type = λ h. out_of_fuel
free_with_keys (suc k) value type =
    if type == t_int
    then skip
    else if type == t_list
    then free_chain (free_item (free_with_keys k)) k value
    else if type == t_dict
    then free_chain (free_pair (free_with_keys k)) k value
    else free value
