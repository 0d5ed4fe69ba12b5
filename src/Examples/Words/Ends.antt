-- ===== src/Examples/Words/Ends.antt =====
-- Which files `create_file` of examples/wc/create_data_files.py writes, and when it comes to an end.
use worker_ng.Base.{
  ℕ, zero, suc, ◌+◌, ◌-◌, ◌≤◌, ◌<◌, ◌≡◌, refl, sym, ◌∙◌, ◌⊎◌, inl, inr, init, pos, some, List, [],
  ◌∷◌, ◌++◌, map, append_assoc, append-nil, concat, length, ◌==◌, Bool-cases, arith, All,
}
use worker_ng.Text.{Text, codes}
use worker_ng.Errors.{ok}
use worker_ng.Workfile.{print}
use worker_ng.Options.CommandLine.{join}
use worker_ng.Examples.Random.{Random}
use worker_ng.Examples.Words.{max_word_length, lines_loop, create_file}
use worker_ng.Examples.Words.Lines.{IsLine, make_line-IsLine}

-- A file of the lines.
abbrev pub print_lines : List (List Text) → Text
print_lines lines = concat (map (λ words. print (join (codes " ") words)) lines)

abbrev pub total : List (List Text) → ℕ
total [] = 0
total (ws ∷ lines) = length ws + total lines

module _ (r : Random) where
  -- A file as the loop leaves it: behind what was there, lines that fit, with all the words, but not
  -- without the last line.
  pub record Written (n nr_words : ℕ) (before : Text) (text : Text) : Type 0 where
    lines : List (List Text)
    printed : text ≡ before ++ print_lines lines
    fit : All (IsLine n) lines
    enough : nr_words ≤ total lines
    needed : (lines ≡ []) ⊎ (total (init lines) < nr_words)

  total-init :
      (nr_words : ℕ) (words : List Text) (lines : List (List Text))
      → 0 < nr_words
      → (lines ≡ []) ⊎ (total (init lines) < nr_words - length words)
      → total (init (words ∷ lines)) < nr_words
  total-init nr_words words [] h c = h
  total-init nr_words words (l ∷ lines) h (inl e) = absurd cc
  total-init nr_words words (l ∷ lines) h (inr lt) = omega arith

  -- One more line in front.
  Written-line :
      (n nr_words : ℕ) (before text : Text) (words : List Text)
      → 0 < nr_words
      → IsLine n words
      → Written n (nr_words - length words) (before ++ print (join (codes " ") words)) text
      → Written n nr_words before text
  Written-line n nr_words before text words some_left h w = record {
    lines = words ∷ w.lines;
    printed = simp (w.printed, append_assoc);
    fit = (h, w.fit);
    enough = omega (arith, w.enough);
    needed = inr (total-init nr_words words w.lines some_left w.needed);
  }

  lines_loop-Written :
      (fuel n nr_words : ℕ) (text : Text) (s : r.State) (text' : Text) (s' : r.State)
      → 0 < n
      → lines_loop r fuel n nr_words text s ≡ some (ok (text', s'))
      → Written n nr_words text text'
  unfolding lines_loop
  lines_loop-Written zero n nr_words text s text' s' h = λ e. absurd (cc)
  lines_loop-Written (suc fuel) n nr_words text s text' s' h = elim (Bool-cases (nr_words == 0)) [
    | inl z ↦ rw z (λ e. record {
      lines = [];
      printed = (let same : text ≡ text' = cc in sym same ∙ sym (append-nil text));
      fit = tt;
      enough = ground arith;
      needed = inl refl;
    })
    | inr nz ↦
        let (words, s1, line, is) = make_line-IsLine r n s h in
        rw (nz, line)
          (λ e. Written-line n nr_words text text' words (ground arith) is (
            lines_loop-Written fuel n (nr_words - length words)
              (text ++ print (join (codes " ") words)) s1 text' s' h e))
  ]

  -- With room for the longest word, each line has a word.
  lines_loop-some :
      (fuel n nr_words : ℕ) (text : Text) (s : r.State)
      → suc max_word_length ≤ n
      → nr_words < fuel
      → (text' : Text) × (s' : r.State) × (lines_loop r fuel n nr_words text s
          ≡ some (ok (text', s')))
  unfolding lines_loop
  lines_loop-some zero n nr_words text s h g = absurd (omega arith)
  lines_loop-some (suc fuel) n nr_words text s h g = elim (Bool-cases (nr_words == 0)) [
    | inl z ↦ (text, s, rw z refl)
    | inr nz ↦
        let (words, s1, line, is) = make_line-IsLine r n s (omega arith) in
        let some_word = is.2 h in
        let pos_words : 0 < nr_words = ground arith in
        let (text', s', rest) =
          lines_loop-some fuel n (nr_words - length words) (text ++ print (join (codes " ") words))
            s1 h (omega arith) in
        (text', s', rw (nz, line) rest)
  ]

  -- What `create_file` writes, where a line may have a column, is lines of words that fit: each word has
  -- from 1 to 10 letters, each line fewer characters than the number of columns that is given, and there
  -- are at least as many words as a number between 1 and the given maximum, but fewer in the lines before
  -- the last one.
  pub create_file-Written :
      (fuel max_nr_words n : ℕ) (s : r.State) (text : Text) (s' : r.State)
      → 0 < n
      → create_file r fuel (pos max_nr_words) (pos n) s ≡ some (ok (text, s'))
      → (nr_words : ℕ) × (0 < nr_words) × (nr_words ≤ max_nr_words) × Written n nr_words [] text
  unfolding create_file
  create_file-Written fuel zero n s text s' h = λ e. absurd cc
  create_file-Written fuel (suc m) n s text s' h = λ e.
      let nr_words = (r.randint 1 (suc m) s).0 in
      let bounds = r.randint_bounds 1 (suc m) s (omega arith) in
      (
        nr_words,
        omega arith,
        bounds.1,
        lines_loop-Written fuel n nr_words [] (r.randint 1 (suc m) s).1 text s' h e,
      )

  -- With at least 11 columns and a positive maximum of words, `create_file` writes a file, and the outer
  -- loop takes no more rounds than the maximum of words and one.
  pub create_file-some :
      (fuel max_nr_words n : ℕ) (s : r.State)
      → suc max_word_length ≤ n
      → 0 < max_nr_words
      → max_nr_words < fuel
      → (text : Text) × (s' : r.State) × (create_file r fuel (pos max_nr_words) (pos n) s
          ≡ some (ok (text, s')))
  unfolding create_file
  create_file-some fuel zero n s h p g = absurd (omega arith)
  create_file-some fuel (suc m) n s h p g =
      let bounds = r.randint_bounds 1 (suc m) s (omega arith) in
      lines_loop-some fuel n (r.randint 1 (suc m) s).0 [] (r.randint 1 (suc m) s).1 h (omega arith)
