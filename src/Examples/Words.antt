-- ===== src/Examples/Words.antt =====
-- `create_file` and `main` of examples/wc/create_data_files.py: files of random words, in lines of
-- a limited length.
pub mod Lines
pub mod Ends
pub mod Files
use Prim.Native.Nat.{min}
use worker_ng.Base.{
  ℕ, zero, suc, ◌+◌, ◌-◌, ℤ, pos, negsuc, Option, none, some, List, [], ◌∷◌, ◌++◌, length, init,
  ltb, ◌==◌, if◌then◌else◌,
}
use worker_ng.Text.{Text, codes}
use worker_ng.Text.Numbers.{str}
use worker_ng.Errors.{Result, ok, err, value_error, index_error}
use worker_ng.Workfile.{print}
use worker_ng.Artifacts.Paths.{FilePath}
use worker_ng.Artifacts.{World, write_file}
use worker_ng.Options.CommandLine.{join}
use worker_ng.Examples.Random.{Random}

abbrev pub max_word_length : ℕ
max_word_length = 10

-- `words.pop()`
abbrev pub pop : List Text → Result (List Text)
pop [] = err index_error
pop (w ∷ ws) = ok (init (w ∷ ws))

module _ (r : Random) where
  open r use {State, randint, letters}

  abbrev pub draw_word : ℕ → State → Text × State
  draw_word max_length s = let (word_length, s') = randint 1 max_length s in letters word_length s'

  -- The inner loop: the words, and the length of the line with a blank behind each. `none` is out of
  -- fuel.
  unfoldable pub words_loop : ℕ → ℕ → List Text → ℕ → State → Option (List Text × ℕ × State)
  words_loop zero nr_columns words line_length s = none
  words_loop (suc fuel) nr_columns words line_length s =
      let (word, s') = draw_word (min max_word_length nr_columns) s in
      let longer =
        words_loop fuel nr_columns (words ++ word ∷ []) (line_length + length word + 1) s' in
      if ltb line_length nr_columns then longer else some (words, line_length, s)

  -- The last word is dropped from a line that is too long.
  abbrev pub fitting : ℕ → List Text → ℕ → Result (List Text)
  fitting nr_columns words line_length = if ltb nr_columns line_length then pop words else ok words

  abbrev pub with_state : Result (List Text) → State → Result (List Text × State)
  with_state (err e) s = err e
  with_state (ok words) s = ok (words, s)

  abbrev pub fitted : ℕ → Option (List Text × ℕ × State) → Option (Result (List Text × State))
  fitted nr_columns none = none
  fitted nr_columns (some (words, line_length, s)) =
      some (with_state (fitting nr_columns words line_length) s)

  -- The words of one line.
  unfoldable pub make_line : ℕ → State → Option (Result (List Text × State))
  unfolding words_loop
  make_line nr_columns s = fitted nr_columns (words_loop (suc nr_columns) nr_columns [] 0 s)

  -- What follows a line.
  abbrev pub after_line :
      (List Text → State → Option (Result (Text × State)))
      → Option (Result (List Text × State))
      → Option (Result (Text × State))
  after_line next none = none
  after_line next (some (err e)) = some (err e)
  after_line next (some (ok (words, s))) = next words s

  -- The outer loop; a difference below zero is zero here, which ends the loop too.
  unfoldable pub lines_loop : ℕ → ℕ → ℕ → Text → State → Option (Result (Text × State))
  unfolding make_line
  lines_loop zero nr_columns nr_words text s = none
  lines_loop (suc fuel) nr_columns nr_words text s =
      let more =
        after_line
          (λ words s'.
            lines_loop fuel nr_columns (nr_words - length words)
              (text ++ print (join (codes " ") words)) s')
          (make_line nr_columns s) in
      if nr_words == 0 then some (ok (text, s)) else more

  abbrev pub empty_range : Result (Text × State)
  empty_range = err (value_error (codes "empty range for randint"))

  -- `create_file`, with the rounds that the outer loop may take: what is written. With a negative number
  -- of columns a line has no word that could be dropped.
  unfoldable pub create_file : ℕ → ℤ → ℤ → State → Option (Result (Text × State))
  unfolding lines_loop
  create_file fuel (pos zero) nr_columns s = some empty_range
  create_file fuel (negsuc n) nr_columns s = some empty_range
  create_file fuel (pos (suc n)) (negsuc m) s = some (err index_error)
  create_file fuel (pos (suc n)) (pos nr_columns) s =
      let (nr_words, s') = randint 1 (suc n) s in lines_loop fuel nr_columns nr_words [] s'
