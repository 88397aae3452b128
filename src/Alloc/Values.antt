-- ===== src/Alloc/Values.antt =====
-- bncode.c: `mk_benc_dict`, `mk_benc_list_entry` and `benc_list_entry_set_v`.
use ttracker.Base.{ℕ, suc, ◌≡◌, refl, inr, [], ◌∷◌, arith}
use ttracker.Heap.{null, Heap, done, Command, Effect, set_word, ◌>>=◌, ◌>>◌}
use ttracker.Heap.Overlay.{overlay, AreFresh, set_word-middle}
use ttracker.Free.Values.{t_dict, free_with_keys}
use ttracker.Free.Values.Trees.{
  dict, no_entry, entry_nodes, tree_objects, tree_size, free_with_keys_lem,
}
use ttracker.Alloc.{Malloc, IsMalloc, xmalloc}
use ttracker.Alloc.Outcome.{Gives, bind, xmalloc-Gives, one-word, three-words}

module _ (malloc : Malloc) where
  unfoldable pub make_dict : Command ℕ
  make_dict = do pdict ← xmalloc malloc 1; set_word pdict 0 null; done pdict

  unfoldable pub make_list_entry : Command ℕ
  make_list_entry = xmalloc malloc 3

-- An entry has the words data and type behind its link.
unfoldable pub set_value : ℕ → ℕ → ℕ → Effect
set_value ple value type = do set_word ple 1 value; set_word ple 2 type

module _ (malloc : Malloc) (is : IsMalloc malloc) (h : Heap) where
  -- A new dictionary is the one object of an empty value of the format.
  pub make_dict-Gives : Gives malloc h (make_dict malloc) h (λ d h'.
      (h' ≡ overlay (tree_objects (dict d no_entry)) h)
      × AreFresh (tree_objects (dict d no_entry)) h)
  unfolding make_dict tree_objects entry_nodes
  make_dict-Gives =
      bind malloc h (xmalloc malloc 1) _ h _ _ (xmalloc-Gives malloc is h 1 [] h refl)
        λ d h' (w, e, l, (ne, free)).
          let (x, s) = one-word w l in
          rw (e, s, set_word-middle [] d 0 null (x ∷ []) [] h (ne, free, tt))
            (inr (d, _, refl, (refl, (ne, free, tt))))

  -- `bencode_free_with_keys` takes back exactly what `mk_benc_dict` allocated.
  pub make_dict-free :
      (k : ℕ)
      → Gives malloc h
          (make_dict malloc >>= λ d. free_with_keys (suc (suc k)) d t_dict)
          h
          (λ _ h'. h' ≡ h)
  unfolding tree_size
  make_dict-free k = bind malloc h (make_dict malloc) _ h _ _ make_dict-Gives λ d h' (e, f).
      rw e (inr (tt, h, free_with_keys_lem (dict d no_entry) (suc (suc k)) h (omega arith) f, refl))

  -- A new entry, once it is set, holds the value and its type. Its link is still to be written.
  pub list_entry-Gives :
      (value type : ℕ)
      → Gives malloc h
          (make_list_entry malloc >>= λ ple. set_value ple value type >>= λ _. done ple)
          h
          (λ ple h'.
            (n : ℕ) × (h' ≡ overlay ((ple, n ∷ value ∷ type ∷ []) ∷ []) h)
            × AreFresh ((ple, n ∷ value ∷ type ∷ []) ∷ []) h)
  unfolding make_list_entry set_value
  list_entry-Gives value type =
      bind malloc h (make_list_entry malloc) _ h _ _ (xmalloc-Gives malloc is h 3 [] h refl)
        λ ple h' (w, e, l, (ne, free)).
          let (x, y, z, s) = three-words w l in
          rw
            (
              e,
              s,
              set_word-middle [] ple 1 value (x ∷ y ∷ z ∷ []) [] h (ne, free, tt),
              set_word-middle [] ple 2 type (x ∷ value ∷ z ∷ []) [] h (ne, free, tt),
            )
            (inr (ple, _, refl, (x, refl, (ne, free, tt))))
