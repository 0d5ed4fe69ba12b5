-- ===== src/Options/Slurm.antt =====
-- `SlurmOptionParser` of scripts/worker/slurm/option_parser.py: its options, the test for resource
-- directives, and reading the directives of a job script.
pub mod Reading
pub mod Flags
use worker_ng.Base.{
  ℕ, suc, Bool, true, false, ◌&&◌, ◌||◌, Option, none, some, List, [], ◌∷◌, ◌++◌, length, map,
  if◌then◌else◌, ◌==◌,
}
use worker_ng.Text.{Text, codes, newline, starts_with, strip, text_eq, read_lines}
use worker_ng.Errors.{Result, ok, ◌>>=◌}
use worker_ng.Options.Argparse.{Names, single, several, both}
use worker_ng.Shlex
use worker_ng.Options.{Parsers, ParseData, drop, isspace}

abbrev pub pass_through_options : List Names
pass_through_options =
    both (codes "-A") (codes "--account")
    ∷ single (codes "--batch")
    ∷ both (codes "-b") (codes "--begin")
    ∷ both (codes "-D") (codes "--chdir")
    ∷ both (codes "-L") (codes "--licenses")
    ∷ both (codes "-M") (codes "--cluster")
    ∷ single (codes "--comment")
    ∷ both (codes "-d") (codes "--dependency")
    ∷ both (codes "-m") (codes "--distribution")
    ∷ both (codes "-e") (codes "--error")
    ∷ single (codes "--mail-type")
    ∷ single (codes "--mail-user")
    ∷ single (codes "--network")
    ∷ single (codes "--nice")
    ∷ both (codes "-k") (codes "--no-kill")
    ∷ single (codes "--open-mode")
    ∷ both (codes "-o") (codes "--output")
    ∷ both (codes "-p") (codes "--partition")
    ∷ single (codes "--prefer")
    ∷ single (codes "--priority")
    ∷ both (codes "-q") (codes "--qos")
    ∷ single (codes "--reservation")
    ∷ both (codes "-t") (codes "--time")
    ∷ single (codes "--time-min")
    ∷ single (codes "--tmp")
    ∷ single (codes "--wait-all-nodes")
    ∷ []

abbrev pub pass_through_flags : List Names
pass_through_flags =
    both (codes "-h") (codes "--help")
    ∷ both (codes "-H") (codes "--hold")
    ∷ single (codes "--ignore-pbs")
    ∷ single (codes "--no-requeue")
    ∷ both (codes "-Q") (codes "--quiet")
    ∷ single (codes "--reboot")
    ∷ single (codes "--requeue")
    ∷ single (codes "--test-only")
    ∷ single (codes "--usage")
    ∷ single (codes "--use-min-nodes")
    ∷ both (codes "-v") (codes "--verbose")
    ∷ both (codes "-V") (codes "--version")
    ∷ both (codes "-W") (codes "--wait")
    ∷ []

abbrev pub array_option : Names
array_option = both (codes "-a") (codes "--array")

abbrev pub name_option : Names
name_option = both (codes "-J") (codes "--jobname")

abbrev pub resource_options : List Names
resource_options =
    both (codes "-c") (codes "--cpus-per-task")
    ∷ single (codes "--gpu-bind")
    ∷ both (codes "-G") (codes "--gpus")
    ∷ single (codes "--gpus-per-socket")
    ∷ single (codes "--gpus-per-node")
    ∷ single (codes "--gpus-per-task")
    ∷ single (codes "--hint")
    ∷ single (codes "--mem")
    ∷ single (codes "--mem-bind")
    ∷ single (codes "--mem-per-cpu")
    ∷ single (codes "--mem-per-gpu")
    ∷ both (codes "-N") (codes "--nodes")
    ∷ both (codes "-n") (codes "--ntasks")
    ∷ single (codes "--ntasks-per-core")
    ∷ single (codes "--ntasks-per-gpu")
    ∷ single (codes "--ntasks-per-node")
    ∷ single (codes "--ntasks-per-socket")
    ∷ single (codes "--propagate")
    ∷ single (codes "--sockets-per-node")
    ∷ single (codes "--threads-per-core")
    ∷ []

abbrev pub resource_flags : List Names
resource_flags =
    single (codes "--contiguous")
    ∷ both (codes "-O") (codes "--overcommit")
    ∷ both (codes "-s") (codes "--oversubscribe")
    ∷ single (codes "--spread-job")
    ∷ []

abbrev pub default_directive_prefix : Text
default_directive_prefix = codes "#SBATCH"

-- A string is one item for `flatten`.
unfoldable pub flatten : List Names → List Text
flatten [] = []
flatten (single name ∷ items) = name ∷ flatten items
flatten (several names ∷ items) = names ++ flatten items

-- `itertools.chain(*items)`: a string is the sequence of its characters.
unfoldable pub chain : List Names → List Text
chain [] = []
chain (single name ∷ items) = map (λ c. c ∷ []) name ++ chain items
chain (several names ∷ items) = names ++ chain items

-- `part in s`, for strings.
unfoldable pub contains : Text → Text → Bool
contains part [] = starts_with part []
contains part (c ∷ s) = starts_with part (c ∷ s) || contains part s

-- `item in items`, for a list of strings.
unfoldable pub is_among : Text → List Text → Bool
is_among item [] = false
is_among item (x ∷ xs) = text_eq x item || is_among item xs

-- The inner loop: whether some option with `=` behind it stands in the argument.
unfoldable pub has_option : Text → List Text → Bool
unfolding contains
has_option arg [] = false
has_option arg (option ∷ options) = contains (option ++ codes "=") arg || has_option arg options

-- `_is_resource_directive_line`
unfoldable pub is_resource_directive_line : List Text → Bool
unfolding has_option is_among flatten chain
is_resource_directive_line [] = false
is_resource_directive_line (arg ∷ args) =
    has_option arg (flatten resource_options)
    || (is_among arg (chain resource_flags) || is_resource_directive_line args)

-- The variables of the loop in `_parse_script`.
pub record State : Type 0 where
  pub args : List Text
  pub shebang : Option Text
  pub slurm_directives : Text
  pub slurm_group0_directives : Text
  pub script : Text
  pub parsing_slurm : Bool

abbrev pub start : State
start = record {
  args = [];
  shebang = none;
  slurm_directives = [];
  slurm_group0_directives = [];
  script = [];
  parsing_slurm = true;
}

-- What the loop does with a directive line and its arguments.
abbrev pub add_directive : Text → List Text → State → State
add_directive line new_args st =
    if is_resource_directive_line new_args
    then record st {
      args = st.args ++ new_args;
      slurm_group0_directives = st.slurm_group0_directives ++ line;
    }
    else record st { args = st.args ++ new_args; slurm_directives = st.slurm_directives ++ line }

-- The second group of resources, added behind the directives.
abbrev pub hetjob : Text
hetjob =
    default_directive_prefix
    ++ codes " hetjob"
    ++ newline ∷ default_directive_prefix
    ++ codes " --nodes=1 --ntasks=1 --cpus-per-task=1"
    ++ newline ∷ []

module _ (ps : Parsers) (directive_prefix : Text) where
  open ps use {parse_known_args, Namespace}

  -- The body of the loop.
  unfoldable pub parse_line : ℕ → Text → State → Result State
  parse_line line_nr line st =
      if starts_with (codes "#!") line && line_nr == 0
      then ok (record st { shebang = some (strip line) })
      else if starts_with directive_prefix line && st.parsing_slurm
      then (do
        new_args ← Shlex.split true (drop (length directive_prefix) line)
        ok (add_directive line new_args st))
      else if (starts_with (codes "#") line || isspace line) && st.parsing_slurm
      then ok st
      else ok (record st { script = st.script ++ line; parsing_slurm = false })

  unfoldable pub parse_lines : ℕ → List Text → State → Result State
  parse_lines line_nr [] st = ok st
  parse_lines line_nr (line ∷ rest) st = do
    next ← parse_line line_nr line st
    parse_lines (suc line_nr) rest next

  -- `_parse_script` on what the file holds.
  unfoldable pub parse_script : Text → Result (ParseData Namespace)
  unfolding parse_lines
  parse_script file = do
    st ← parse_lines 0 (read_lines file) start
    parsed ← parse_known_args st.args
    ok (record {
      options = parsed.0;
      shebang = st.shebang;
      directives = (st.slurm_directives ++ st.slurm_group0_directives) ++ hetjob;
      script = some st.script;
      scheduler_options = none;
    })
