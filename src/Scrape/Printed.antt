-- ===== src/Scrape/Printed.antt =====
-- Printing into an array, piece by piece.
use ttracker.Base.{
  ℕ, ◌+◌, ◌≤◌, ◌≡◌, refl, sym, ap, ◌∙◌, some, [], ◌∷◌, ◌++◌, Bytes, arith, length, take,
  length-append, append_assoc, take-append, take_all,
}
use ttracker.Memory.{Object, cells, sprintf, write_at}
use ttracker.Memory.Laws.{written, write_at-in_bounds, length-written, take-written, take-take}
use ttracker.Memory.Printf.{length-cells, cells-append}

-- An array of `n` chars that starts with a text of `w` chars.
pub record IsPrinted (n : ℕ) (s : Bytes) (m : Object) (w : ℕ) : Type 0 where
  pub room : length m ≡ n
  pub size : w ≡ length s
  pub text : take w m ≡ cells s

module _ {n : ℕ} {s : Bytes} {m : Object} {w : ℕ} (v : IsPrinted n s m w) where
  -- memcpy behind the text.
  pub write_at-IsPrinted :
      (t : Bytes)
      → w + length t ≤ n
      → (m' : Object) × (write_at m w (cells t) ≡ some m') × IsPrinted n (s ++ t) m' (w + length t)
  write_at-IsPrinted t k =
      let l = length-cells t in
      let fits : w + length (cells t) ≤ length m = omega (arith, k, l, v.room) in
      (
        written m w (cells t),
        write_at-in_bounds m w (cells t) fits,
        record {
          room = length-written m w (cells t) fits ∙ v.room;
          size = omega (arith, v.size, length-append s t);
          text =
              ap (λ k. take (w + k) (written m w (cells t))) (sym l)
              ∙ take-written m w (cells t) fits
              ∙ ap (λ x. x ++ cells t) v.text
              ∙ sym (cells-append s t);
        },
      )

  -- sprintf behind the text.
  pub sprintf-IsPrinted :
      (t : Bytes)
      → w + length t + 1 ≤ n
      → (m' : Object) × (sprintf m w t ≡ some (m', length t))
        × IsPrinted n (s ++ t) m' (w + length t)
  unfolding sprintf
  sprintf-IsPrinted t k =
      let src = cells t ++ some 0 ∷ [] in
      let l : length src ≡ length t + 1 =
        omega (arith, length-append (cells t) (some 0 ∷ []), length-cells t) in
      let fits : w + length src ≤ length m = omega (arith, k, l, v.room) in
      let m' = written m w src in
      let whole = take-written m w src fits ∙ ap (λ x. x ++ src) v.text in
      let short : w + length t ≤ w + length src = omega (arith, l) in
      let at : w + length t ≡ length (cells (s ++ t)) =
        omega (arith, v.size, length-append s t, length-cells (s ++ t)) in
      let pieces =
        sym (append_assoc (cells s) (cells t) (some 0 ∷ []))
        ∙ ap (λ x. x ++ some 0 ∷ []) (sym (cells-append s t)) in
      (
        m',
        rw (write_at-in_bounds m w src fits) refl,
        record {
          room = length-written m w src fits ∙ v.room;
          size = omega (arith, v.size, length-append s t);
          text =
              sym (take-take m' (w + length t) (w + length src) short)
              ∙ ap (λ x. take (w + length t) x) (whole ∙ pieces)
              ∙ ap (λ k. take k (cells (s ++ t) ++ some 0 ∷ [])) at
              ∙ take-append (cells (s ++ t)) (some 0 ∷ []) (length (cells (s ++ t))) (omega arith)
              ∙ take_all (cells (s ++ t)) (length (cells (s ++ t))) (omega arith);
        },
      )
