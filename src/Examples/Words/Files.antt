-- ===== src/Examples/Words/Files.antt =====
-- `main` of examples/wc/create_data_files.py: the options, the directory and its files.
pub mod Made
use worker_ng.Base.{
  ℕ, zero, suc, ◌-◌, ℤ, pos, negsuc, true, Option, none, some, List, [], ◌∷◌, ◌++◌, length,
}
use worker_ng.Text.{Text, codes}
use worker_ng.Text.Numbers.{str}
use worker_ng.Dict.{lookup}
use worker_ng.Errors.{
  Result, ok, err, Exception, value_error, system_exit, not_a_directory, is_a_directory,
  file_not_found, ◌>>=◌,
}
use worker_ng.Artifacts.Paths.{FilePath}
use worker_ng.Artifacts.{Entry, file, dir, FileSystem, World, put, write_file, exit, raised, Run}
use worker_ng.Options.CommandLine.{text_value}
use worker_ng.Options.Argparse.{
  single, Argument, option, integer, with_default, ArgumentParser, Namespace, Argparse,
}
use worker_ng.Options.Attributes.{int_of}
use worker_ng.Options.Parser.{text_of}
use worker_ng.Examples.Random.{Random}
use worker_ng.Examples.Words.{create_file}

abbrev pub arguments : List Argument
arguments =
    with_default (text_value (codes "10")) (integer (single (codes "--nr-files")))
    ∷ with_default (text_value (codes "100")) (integer (single (codes "--max-words")))
    ∷ with_default (text_value (codes "80")) (integer (single (codes "--max-columns")))
    ∷ with_default (text_value (codes ".")) (option (single (codes "--output-dir")))
    ∷ with_default (text_value (codes "1234")) (integer (single (codes "--seed")))
    ∷ []

abbrev pub arg_parser : ArgumentParser
arg_parser = record { add_help = true; exit_on_error = true; arguments = arguments }

-- `parse_args`: the parser exits on an argument that is left.
abbrev pub no_rest : Namespace × List Text → Result Namespace
no_rest (ns, []) = ok ns
no_rest (ns, arg ∷ args) = err system_exit

pub record DataOptions : Type 0 where
  pub nr_files : ℤ
  pub max_words : ℤ
  pub max_columns : ℤ
  pub output_dir : Text
  pub random_seed : ℤ

unfoldable pub data_options : (Text → ℤ) → Namespace → Result DataOptions
unfolding lookup
data_options int_value ns = do
  nr_files ← int_of int_value (lookup (codes "nr_files") ns)
  max_words ← int_of int_value (lookup (codes "max_words") ns)
  max_columns ← int_of int_value (lookup (codes "max_columns") ns)
  output_dir ← text_of (lookup (codes "output_dir") ns)
  random_seed ← int_of int_value (lookup (codes "seed") ns)
  ok (record {
    nr_files = nr_files;
    max_words = max_words;
    max_columns = max_columns;
    output_dir = output_dir;
    random_seed = random_seed;
  })

-- `f"{n:04d}"`
zeros : ℕ → Text
zeros zero = []
zeros (suc n) = b'0' ∷ zeros n

unfoldable pub data_file_name : ℕ → Text
unfolding zeros
data_file_name file_nr =
    codes "file_" ++ (zeros (4 - length (str file_nr)) ++ (str file_nr ++ codes ".txt"))

-- `mkdir(parents=True)`, from the root down.
abbrev pub make_dir : FilePath → Option Entry → FileSystem → Result FileSystem
make_dir p none fs = ok (put p dir fs)
make_dir p (some dir) fs = ok fs
make_dir p (some (file s)) fs = err not_a_directory

unfoldable pub make_dirs : FilePath → FilePath → FileSystem → Result FileSystem
make_dirs before [] fs = ok fs
make_dirs before (c ∷ rest) fs = do
  fs' ← make_dir (before ++ c ∷ []) (fs (before ++ c ∷ [])) fs
  make_dirs (before ++ c ∷ []) rest fs'

abbrev pub with_output_dir : FilePath → Option Entry → FileSystem → Result FileSystem
with_output_dir p none fs = make_dirs [] p fs
with_output_dir p (some entry) fs = ok fs

-- Whether `open(p / name, 'w')` opens a file, by the entries of the directory and of the file.
abbrev pub opened : Option Entry → Option Entry → Result (Unit {0})
opened none entry = err file_not_found
opened (some (file s)) entry = err not_a_directory
opened (some dir) (some dir) = err is_a_directory
opened (some dir) (some (file s)) = ok tt
opened (some dir) none = ok tt

-- The rounds of a loop over `range`.
abbrev pub nat_of : ℤ → ℕ
nat_of (pos n) = n
nat_of (negsuc n) = 0

abbrev pub read_options : Argparse → (Text → ℤ) → List Text → Result DataOptions
read_options a int_value args = do
  parsed ← a.parse_known_args arg_parser args []
  ns ← no_rest parsed
  data_options int_value ns

module _ (r : Random) where
  open r use {State, seed}

  -- What is left of a file, and what follows. The range for the number of words is drawn from before the
  -- file is opened.
  abbrev pub after_file :
      (State → World → Option Run)
      → Result (Unit {0})
      → FilePath
      → Option (Result (Text × State))
      → World
      → Option Run
  after_file next open_file p (some (err (value_error msg))) w = some (w, raised (value_error msg))
  after_file next (err e) p result w = some (w, raised e)
  after_file next (ok _) p none w = none
  after_file next (ok _) p (some (err e)) w = some (write_file p [] w, raised e)
  after_file next (ok _) p (some (ok (text, s))) w = next s (write_file p text w)

  -- The loop over the files, with the number of files that are left.
  unfoldable pub files_loop : ℕ → FilePath → ℤ → ℤ → ℕ → ℕ → State → World → Option Run
  unfolding create_file data_file_name
  files_loop fuel output_dir max_words max_columns zero file_nr s w = some (w, exit 0)
  files_loop fuel output_dir max_words max_columns (suc left) file_nr s w =
      let p = output_dir ++ data_file_name file_nr ∷ [] in
      after_file
        (λ s' w'. files_loop fuel output_dir max_words max_columns left (suc file_nr) s' w')
        (opened (w.files output_dir) (w.files p)) p (create_file r fuel max_words max_columns s) w

  abbrev pub after_mkdir : ℕ → FilePath → DataOptions → Result FileSystem → World → Option Run
  after_mkdir fuel output_dir options (err e) w = some (w, raised e)
  after_mkdir fuel output_dir options (ok fs) w =
      files_loop fuel output_dir options.max_words options.max_columns (nat_of options.nr_files) 1
        (seed options.random_seed) (record w { files = fs })

  abbrev pub with_options : ℕ → (Text → FilePath) → Result DataOptions → World → Option Run
  with_options fuel place (err e) w = some (w, raised e)
  with_options fuel place (ok options) w =
      let output_dir = place options.output_dir in
      after_mkdir fuel output_dir options (with_output_dir output_dir (w.files output_dir) w.files)
        w

  -- `main`, with the arguments of the command line and the rounds for the lines of each file.
  unfoldable pub main :
      ℕ → Argparse → (Text → ℤ) → (Text → FilePath) → List Text → World → Option Run
  unfolding files_loop make_dirs data_options
  main fuel a int_value place args w = with_options fuel place (read_options a int_value args) w
