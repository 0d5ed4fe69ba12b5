-- ===== src/Options/PbsTorque.antt =====
-- `PbsTorqueOptionParser` of scripts/worker/pbs_torque/option_parser.py: reading the directives of a
-- job script, and merging the resources of two submissions.
pub mod Reading
pub mod Resources
use worker_ng.Base.{
  ℕ, suc, Bool, true, false, ◌&&◌, ◌||◌, Option, none, some, List, [], ◌∷◌, ◌++◌, length, map,
  if◌then◌else◌, ◌==◌,
}
use worker_ng.Text.{Text, codes, starts_with, strip, split, read_lines}
use worker_ng.Dict.{Dict, insert, update}
use worker_ng.Errors.{Result, ok, err, value_error, ◌>>=◌}
use worker_ng.Shlex
use worker_ng.Options.{Parsers, ParseData, drop, isspace}

abbrev pub pass_through_options : List Text
pass_through_options = map codes (
    "-a" ∷ "-A" ∷ "-b" ∷ "-c" ∷ "-d" ∷ "-D" ∷ "-e" ∷ "-j" ∷ "-k" ∷ "-K" ∷ "-L" ∷ "-m" ∷ "-M" ∷ "-n"
    ∷ "-N" ∷ "-o" ∷ "-p" ∷ "-P" ∷ "-q" ∷ "-r" ∷ "-S" ∷ "-T" ∷ "-u" ∷ "-v" ∷ "-w" ∷ "-W" ∷ [])

abbrev pub pass_through_flags : List Text
pass_through_flags = map codes ("-V" ∷ "-h" ∷ "-f" ∷ "-F" ∷ [])

abbrev pub array_option : Text
array_option = codes "-t"

abbrev pub name_option : Text
name_option = codes "-N"

abbrev pub directive_prefix_option : Text
directive_prefix_option = codes "-C"

abbrev pub default_directive_prefix : Text
default_directive_prefix = codes "#PBS"

-- The variables of the loop in `_parse_script`.
pub record State : Type 0 where
  pub args : List Text
  pub shebang : Option Text
  pub pbs_directives : Text
  pub script : Text
  pub parsing_pbs : Bool

abbrev pub start : State
start = record { args = []; shebang = none; pbs_directives = []; script = []; parsing_pbs = true }

module _ (ps : Parsers) (directive_prefix : Text) where
  open ps use {parse_known_args, Namespace}

  -- The body of the loop.
  unfoldable pub parse_line : ℕ → Text → State → Result State
  parse_line line_nr line st =
      if starts_with (codes "#!") line && line_nr == 0
      then ok (record {
        args = st.args;
        shebang = some (strip line);
        pbs_directives = st.pbs_directives;
        script = st.script;
        parsing_pbs = st.parsing_pbs;
      })
      else if starts_with directive_prefix line && st.parsing_pbs
      then (do
        new ← Shlex.split true (drop (length directive_prefix) line)
        ok (record {
          args = st.args ++ new;
          shebang = st.shebang;
          pbs_directives = st.pbs_directives ++ line;
          script = st.script;
          parsing_pbs = st.parsing_pbs;
        }))
      else if (starts_with (codes "#") line || isspace line) && st.parsing_pbs
      then ok st
      else ok (record {
        args = st.args;
        shebang = st.shebang;
        pbs_directives = st.pbs_directives;
        script = st.script ++ line;
        parsing_pbs = false;
      })

  unfoldable pub parse_lines : ℕ → List Text → State → Result State
  parse_lines line_nr [] st = ok st
  parse_lines line_nr (line ∷ rest) st = do
    next ← parse_line line_nr line st
    parse_lines (suc line_nr) rest next

  -- `_parse_script` on what the file holds.
  unfoldable pub parse_script : Text → Result (ParseData Namespace)
  unfolding parse_lines
  parse_script file = do
    st ← parse_lines 0 (read_lines file) start
    parsed ← parse_known_args st.args
    ok (record {
      options = parsed.0;
      shebang = st.shebang;
      directives = st.pbs_directives;
      script = some st.script;
      scheduler_options = none;
    })

-- `part.split('=', maxsplit=1)`: without a second part the assignment raises.
unfoldable pub split_once : Text → Result (Text × Text)
split_once [] = err (value_error (codes "not enough values to unpack (expected 2, got 1)"))
split_once (c ∷ s) =
    let later = (do r ← split_once s; ok (c ∷ r.0, r.1)) in if c == b'=' then ok ([], s) else later

unfoldable pub add_parts : Dict → List Text → Result Dict
add_parts m [] = ok m
add_parts m (part ∷ parts) = do entry ← split_once part; add_parts (insert entry.0 entry.1 m) parts

add_resources : Dict → List Text → Result Dict
unfolding add_parts
add_resources m [] = ok m
add_resources m (resource ∷ resources) = do
  added ← add_parts m (split b',' resource)
  add_resources added resources

-- `_normalize_resources`
unfoldable pub normalize_resources : List Text → Result Dict
unfolding add_resources
normalize_resources resources = add_resources [] resources

abbrev pub key_value : Text × Text → Text
key_value (key, value) = key ++ codes "=" ++ value

-- `_merge_resources`
unfoldable pub merge_resources :
    Option (List Text) → Option (List Text) → Result (Option (List Text))
unfolding normalize_resources
merge_resources none new = ok new
merge_resources (some old) none = ok (some old)
merge_resources (some old) (some new) = do
  resources ← normalize_resources old
  added ← normalize_resources new
  ok (some (map key_value (update resources added)))

abbrev pub preprocess_cli_options : List Text → List Text
preprocess_cli_options options = options
