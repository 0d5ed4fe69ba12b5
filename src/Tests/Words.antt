-- ===== src/Tests/Words.antt =====
-- Files of random words, with a generator that draws the highest number and the letter `a`.
use worker_ng.Base.{
  ℕ, zero, suc, ◌≡◌, ◌<◌, ◌≤◌, ◌≢◌, refl, ℤ, pos, Option, none, some, List, [], ◌∷◌, length, arith,
}
use worker_ng.Text.{Text, codes, text_eq, starts_with, is_space}
use worker_ng.Errors.{ok}
use worker_ng.Text.Numbers.{int}
use worker_ng.Dict.{lookup, insert}
use worker_ng.Artifacts.Paths.{FilePath, path_eq}
use worker_ng.Artifacts.{dir, FileSystem, World, put, exit}
use worker_ng.Options.Argparse.{dest_of}
use worker_ng.Examples.Random.{Random}
use worker_ng.Examples.Words.Files.{DataOptions, data_options, data_file_name, read_options, main}
use worker_ng.Examples.Words.Files.Made.{Filled, main-Filled}
use worker_ng.Tests.Parsers.{parsers, assigned}
use worker_ng.Examples.Words.{create_file, lines_loop, make_line, words_loop}
use worker_ng.Examples.Words.Ends.{Written, create_file-Written}

unfoldable replicate : ℕ → Text
replicate zero = []
replicate (suc n) = 97 ∷ replicate n

length-replicate : (n : ℕ) → length (replicate n) ≡ n
unfolding replicate
length-replicate zero = refl
length-replicate (suc n) = omega (arith, length-replicate n)

abbrev highest : Random
highest = record {
  State = Unit;
  seed = λ n. tt;
  randint = λ low high s. (high, s);
  randint_bounds = λ low high s h. (h, omega arith);
  letters = λ k s. (replicate k, s);
  length-letters = λ k s. length-replicate k;
}

abbrev pair_lines : Text
pair_lines = codes "aaaaaaaaaa aaaaaaaaaa\naaaaaaaaaa aaaaaaaaaa\n"

-- A file of at most three words has four.
pairs : create_file highest 4 (pos 3) (pos 22) tt ≡ some (ok (pair_lines, tt))
unfolding create_file lines_loop make_line words_loop replicate worker_ng.Options.CommandLine.join
pairs = refl

create_file-Written_example :
    (nr_words : ℕ) × (0 < nr_words) × (nr_words ≤ 3) × Written highest 22 nr_words [] pair_lines
create_file-Written_example =
    create_file-Written highest 4 3 22 tt pair_lines tt (omega arith) pairs

abbrev number : Option ℕ → ℤ
number none = pos 0
number (some n) = pos n

abbrev int_value : Text → ℤ
int_value s = number (int s)

abbrev place : Text → FilePath
place name = name ∷ []

-- Nothing but the working directory.
abbrev files : FileSystem
files = put (codes "." ∷ []) dir (λ p. none)

abbrev world : World
world = record { files = files; stdout = []; stderr = [] }

-- The defaults.
abbrev args : List Text
args = []

abbrev options : DataOptions
options = record {
  nr_files = pos 10;
  max_words = pos 100;
  max_columns = pos 80;
  output_dir = codes ".";
  random_seed = pos 1234;
}

options-read : read_options parsers int_value args ≡ ok options
unfolding data_options assigned lookup insert text_eq starts_with dest_of int is_space
options-read = refl

no_directory : (j : ℕ) → files (codes "." ∷ data_file_name j ∷ []) ≢ some dir
unfolding put path_eq text_eq
no_directory j e = cc

there : files (codes "." ∷ []) ≡ some dir
unfolding put path_eq text_eq
there = refl

main-Filled_example :
    (w' : World) × (main highest 101 parsers int_value place args world ≡ some (w', exit 0))
    × ((j : ℕ)
        → 1 ≤ j
        → j ≤ 10
        → Filled highest 100 80 (w'.files (codes "." ∷ data_file_name j ∷ [])))
main-Filled_example =
    main-Filled highest 101 100 80 parsers int_value place args world options options-read refl refl
      (omega arith) (omega arith) (omega arith) there no_directory
