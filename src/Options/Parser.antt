-- ===== src/Options/Parser.antt =====
-- `OptionParser`, `SubmitOptionParser` and `ResubmitOptionParser` of scripts/worker/option_parser.py,
-- with the two parsers of schedulers that they are made for. `argparse` and `pathlib` are parameters.
pub mod Worker
pub mod Again
use worker_ng.Base.{true, false, Option, none, some, List, [], ◌∷◌, ◌++◌, map}
use worker_ng.Text.{Text, codes}
use worker_ng.Dict.{lookup, update}
use worker_ng.Errors.{Result, ok, err, attribute_error, type_error, worker_dir, ◌>>=◌}
use worker_ng.Artifacts.Paths.{FilePath}
use worker_ng.Artifacts.{Entry, file, dir, FileSystem, read_file}
use worker_ng.Options.{Parsers, ParseData}
use worker_ng.Options.Argparse.{
  Names, single, Argument, option, required, integer, flag, appended, with_dest, with_default,
  set_default, ArgumentParser, Namespace, Argparse, joined_namespace,
}
use worker_ng.Options.CommandLine.{
  Value, none_value, false_value, true_value, list_value, text_value, options_dict2list,
}
use worker_ng.Options.Commands.{parse_submit_cmd}
use worker_ng.Options.Merging.{pass_through_parser, merge_slurm_options, merge_pbs_options}
use worker_ng.Options.PbsTorque
use worker_ng.Options.Slurm

-- What the option parsers use of a scheduler's parser. `parse_script` has the directive prefix and
-- what the file holds.
pub record SchedulerOptionParser : Type 0 where
  pub name_option : Names
  pub array_option : Names
  pub directive_prefix_option : Option Text
  pub default_directive_prefix : Text
  pub pass_through_options : List Names
  pub pass_through_flags : List Names
  pub parse_script : Text → Text → Result (ParseData Namespace)
  pub merge_options : List Text → List Text → Result Namespace

module _ (a : Argparse) where
  open a use {parse_known_args}

  -- The base parser that the constructors make.
  abbrev pub base_parser : Names → Names → Parsers
  base_parser name array = record {
    Namespace = Namespace;
    parse_known_args = λ args.
        parse_known_args
          (record {
            add_help = false;
            exit_on_error = true;
            arguments = option name ∷ option array ∷ [];
          })
          args [];
  }

  -- Slurm has an empty list for the option of the directive prefix.
  abbrev pub slurm_option_parser : SchedulerOptionParser
  slurm_option_parser = record {
    name_option = Slurm.name_option;
    array_option = Slurm.array_option;
    directive_prefix_option = none;
    default_directive_prefix = Slurm.default_directive_prefix;
    pass_through_options = Slurm.pass_through_options;
    pass_through_flags = Slurm.pass_through_flags;
    parse_script = Slurm.parse_script (base_parser Slurm.name_option Slurm.array_option);
    merge_options = merge_slurm_options a;
  }

  abbrev pub pbs_torque_option_parser : SchedulerOptionParser
  pbs_torque_option_parser = record {
    name_option = single PbsTorque.name_option;
    array_option = single PbsTorque.array_option;
    directive_prefix_option = some PbsTorque.directive_prefix_option;
    default_directive_prefix = PbsTorque.default_directive_prefix;
    pass_through_options = map single PbsTorque.pass_through_options;
    pass_through_flags = map single PbsTorque.pass_through_flags;
    parse_script =
        PbsTorque.parse_script
          (base_parser (single PbsTorque.name_option) (single PbsTorque.array_option));
    merge_options = merge_pbs_options a;
  }

-- The value of an integer argument is kept as its text.
abbrev pub worker_arguments : List Argument
worker_arguments =
    with_default (text_value (codes "1")) (integer (single (codes "--num_cores")))
    ∷ integer (single (codes "--port"))
    ∷ flag (single (codes "--verbose"))
    ∷ flag (single (codes "--dryrun"))
    ∷ flag (single (codes "--debug"))
    ∷ []

abbrev pub submit_arguments : List Argument
submit_arguments =
    appended (single (codes "--data"))
    ∷ with_dest (codes "script") (required (single (codes "--batch")))
    ∷ []

abbrev pub resubmit_arguments : List Argument
resubmit_arguments = required (single (codes "--dir")) ∷ flag (single (codes "--redo")) ∷ []

abbrev pub prefix_argument : Option Text → Text → Argument
prefix_argument none default = set_default (codes "directive_prefix") (text_value default)
prefix_argument (some name) default =
    with_default (text_value default) (with_dest (codes "directive_prefix") (option (single name)))

-- An attribute that the code takes for a text.
abbrev pub text_of : Option Value → Result Text
text_of none = err attribute_error
text_of (some (text_value s)) = ok s
text_of (some v) = err type_error

-- `pathlib.Path(s)`: the place it names, from the working directory, and `str` of it.
pub record Pathlib : Type 0 where
  pub place : Text → FilePath
  pub shown : Text → Text

-- The two tests on the directory of the previous job.
abbrev pub check_directory : Text → Option Entry → Result (Unit {0})
check_directory name none =
    err (worker_dir (codes "directory " ++ (name ++ codes " does not exist")))
check_directory name (some (file s)) = err (worker_dir (name ++ codes " is not a directory"))
check_directory name (some dir) = ok tt

-- The parsers of an `OptionParser`, with the arguments that its subclass adds.
module _ (s : SchedulerOptionParser) (added : List Argument) where
  abbrev pub relevant_arguments : List Argument
  relevant_arguments =
      with_dest (codes "name") (option s.name_option)
      ∷ prefix_argument s.directive_prefix_option s.default_directive_prefix
      ∷ []

  abbrev pub filter_arguments : List Argument
  filter_arguments = with_dest (codes "array_request") (option s.array_option) ∷ []

  abbrev pub cl_parser : ArgumentParser
  cl_parser = record {
    add_help = true;
    exit_on_error = true;
    arguments = relevant_arguments ++ (filter_arguments ++ (worker_arguments ++ added));
  }

  abbrev pub passthrough_parser : ArgumentParser
  passthrough_parser = record {
    add_help = true;
    exit_on_error = true;
    arguments = filter_arguments ++ (worker_arguments ++ added);
  }

abbrev pub verify_parser : SchedulerOptionParser → ArgumentParser
verify_parser s = record (pass_through_parser s.pass_through_options s.pass_through_flags) {
  exit_on_error = false;
}

module _ (a : Argparse) (pathlib : Pathlib) (fs : FileSystem) (s : SchedulerOptionParser) where
  open a use {parse_known_args}
  open pathlib use {place, shown}

  unfoldable pub filter_worker_cl : List Argument → List Text → Result Namespace
  filter_worker_cl added args = do
    parsed ← parse_known_args (cl_parser s added) args []
    ok parsed.0

  unfoldable pub filter_command_cl : List Argument → List Text → Result (List Text)
  filter_command_cl added args = do
    parsed ← parse_known_args (passthrough_parser s added) args []
    ok parsed.1

  -- `_verify_scheduler_args`: only an exception counts.
  unfoldable pub verify_scheduler_args : List Text → Result (Unit {0})
  verify_scheduler_args args = do parsed ← parse_known_args (verify_parser s) args []; ok tt

  -- `SubmitOptionParser.parse`
  unfoldable pub parse_submit : List Text → Result (ParseData Namespace)
  unfolding filter_worker_cl filter_command_cl verify_scheduler_args read_file joined_namespace
  parse_submit args = do
    cl_options ← filter_worker_cl submit_arguments args
    script ← text_of (lookup (codes "script") cl_options)
    directive_prefix ← text_of (lookup (codes "directive_prefix") cl_options)
    content ← read_file fs (place script)
    parser_result ← s.parse_script directive_prefix content
    options ← joined_namespace parser_result.options cl_options
    scheduler_options ← filter_command_cl submit_arguments args
    verified ← verify_scheduler_args scheduler_options
    ok (record parser_result { options = options; scheduler_options = some scheduler_options })

  -- `ResubmitOptionParser.parse`
  unfoldable pub parse_resubmit : List Text → Result (ParseData Namespace)
  unfolding filter_worker_cl filter_command_cl read_file parse_submit_cmd options_dict2list
  parse_resubmit args = do
    cl_options ← filter_worker_cl resubmit_arguments args
    name ← text_of (lookup (codes "dir") cl_options)
    checked ← check_directory (shown name) (fs (place name))
    command ← read_file fs (place name ++ codes "submit.sh" ∷ [])
    original_submit_options ← parse_submit_cmd command
    resubmit_options ← filter_command_cl resubmit_arguments args
    submit_options ← s.merge_options resubmit_options original_submit_options
    directive_prefix ← text_of (lookup (codes "directive_prefix") cl_options)
    content ← read_file fs (place name ++ codes "jobscript.sh" ∷ [])
    script_data ← s.parse_script directive_prefix content
    ok (record {
      options = cl_options;
      shebang = script_data.shebang;
      directives = script_data.directives;
      script = none;
      scheduler_options = some (options_dict2list (update script_data.options submit_options));
    })
