-- ===== src/Options/Loading.antt =====
-- The code of a scheduler, loaded by its name: `get_scheduler_option_parser` and
-- `get_scheduler_options_preprocessor` of scripts/worker/option_parser.py and `get_submit_output_parser`
-- of scripts/worker/submit_output_parser.py. The modules that there are to import are those of the
-- repository, and the attributes those that end in `OptionParser`.
pub mod Named
use worker_ng.Base.{Option, none, some, List, [], ◌∷◌, if◌then◌else◌}
use worker_ng.Text.{Text, codes, text_eq}
use worker_ng.Errors.{Result, ok, err, module_not_found, attribute_error, ◌>>=◌}
use worker_ng.Submission.{parse_slurm, parse_pbs_torque}
use worker_ng.Options.Argparse.{Argparse}
use worker_ng.Options.CommandLine
use worker_ng.Options.PbsTorque
use worker_ng.Options.Schedulers.{get_parser_class_info, submit_output_module}
use worker_ng.Options.Parser.{SchedulerOptionParser, slurm_option_parser, pbs_torque_option_parser}

-- The two schedulers of the package.
pub data Scheduler : Type 0 where
  slurm pbs_torque : Scheduler

-- `importlib.import_module`, among the modules of one kind.
unfoldable pub import_module : List (Text × Scheduler) → Text → Result Scheduler
unfolding text_eq
import_module [] name = err (module_not_found name)
import_module ((m, s) ∷ modules) name = if text_eq m name then ok s else import_module modules name

abbrev pub option_parsers : List (Text × Scheduler)
option_parsers =
    (codes "worker.slurm.option_parser", slurm)
    ∷ (codes "worker.pbs_torque.option_parser", pbs_torque)
    ∷ []

abbrev pub submit_output_parsers : List (Text × Scheduler)
submit_output_parsers =
    (codes "worker.slurm.submit_output_parser", slurm)
    ∷ (codes "worker.pbs_torque.submit_output_parser", pbs_torque)
    ∷ []

-- The class in each module.
abbrev pub class_name : Scheduler → Text
class_name slurm = codes "SlurmOptionParser"
class_name pbs_torque = codes "PbsTorqueOptionParser"

abbrev pub parser_of : Argparse → Scheduler → SchedulerOptionParser
parser_of a slurm = slurm_option_parser a
parser_of a pbs_torque = pbs_torque_option_parser a

abbrev pub preprocessor_of : Scheduler → List Text → List Text
preprocessor_of slurm options = CommandLine.preprocess_cli_options options
preprocessor_of pbs_torque options = PbsTorque.preprocess_cli_options options

abbrev pub output_parser_of : Scheduler → Text → Result Text
output_parser_of slurm output = parse_slurm output
output_parser_of pbs_torque output = parse_pbs_torque output

-- `getattr(parser_module, class_name)()`
abbrev pub get_class : Argparse → Scheduler → Text → Result SchedulerOptionParser
get_class a s name = if text_eq (class_name s) name then ok (parser_of a s) else err attribute_error

-- The class and the module are given.
unfoldable pub load_class : Argparse → Text × Text → Result SchedulerOptionParser
unfolding import_module
load_class a (name, module_name) = do
  parser_module ← import_module option_parsers module_name
  get_class a parser_module name

unfoldable pub load_preprocessor : Text × Text → Result (List Text → List Text)
unfolding import_module
load_preprocessor (name, module_name) = do
  parser_module ← import_module option_parsers module_name
  ok (preprocessor_of parser_module)

unfoldable pub load_output_parser : Text → Result (Text → Result Text)
unfolding import_module
load_output_parser module_name = do
  parser_module ← import_module submit_output_parsers module_name
  ok (output_parser_of parser_module)

unfoldable pub get_scheduler_option_parser : Argparse → Text → Result SchedulerOptionParser
get_scheduler_option_parser a scheduler_name = load_class a (get_parser_class_info scheduler_name)

unfoldable pub get_scheduler_options_preprocessor : Text → Result (List Text → List Text)
get_scheduler_options_preprocessor scheduler_name =
    load_preprocessor (get_parser_class_info scheduler_name)

unfoldable pub get_submit_output_parser : Text → Result (Text → Result Text)
get_submit_output_parser scheduler_name = load_output_parser (submit_output_module scheduler_name)
