-- ===== src/Wsub/Script.antt =====
-- The whole of `main` of scripts/wsub.py.in, from the command line on, with `read_config_file` of
-- scripts/worker/utils.py. `configparser` is a parameter. The attributes of the options are read at
-- once, before the directory is made.
pub mod Failures
pub mod BatchFile
use worker_ng.Base.{Option, none, some, List, [], ◌∷◌, ◌++◌, ℤ}
use worker_ng.Text.{Text, codes}
use worker_ng.Dict.{lookup}
use worker_ng.Errors.{
  Result, ok, err, Exception, file_not_found, argument_error, config_error, batch_file_error,
  scheduler_option_error, ◌>>=◌,
}
use worker_ng.DataSources.Csv.{CsvModule}
use worker_ng.Config.{Config}
use worker_ng.Artifacts.Paths.{FilePath, path_text}
use worker_ng.Artifacts.{Entry, FileSystem, World, exit, raised, Run, exit_on_error, read_file}
use worker_ng.Artifacts.Exits.{message_args}
use worker_ng.Options.{ParseData}
use worker_ng.Options.Argparse.{Namespace, Argparse}
use worker_ng.Options.Attributes.{
  flag_of, int_of, optional_int_of, optional_text_of, optional_list_of,
}
use worker_ng.Options.Parser.{SchedulerOptionParser, Pathlib, parse_submit}
use worker_ng.Options.Loading.{get_scheduler_option_parser, get_submit_output_parser}
use worker_ng.Submission.{Shell}
use worker_ng.Wsub.{WorkerOptions, wsub}

-- `configparser`, on what is in the file if it can be read: the sections that the scripts use, or an
-- exception for what is missing there or cannot be parsed.
pub record Configparser : Type 0 where
  pub read : Result Text → Result Config

unfoldable pub read_config_file : Configparser → FileSystem → FilePath → Result Config
unfolding read_file
read_config_file configparser fs file_name = configparser.read (read_file fs file_name)

unfoldable pub worker_options : (Text → ℤ) → Namespace → Result WorkerOptions
unfolding lookup
worker_options int_value ns = do
  data_names ← optional_list_of (lookup (codes "data") ns)
  array_request ← optional_text_of (lookup (codes "array_request") ns)
  num_cores ← int_of int_value (lookup (codes "num_cores") ns)
  port ← optional_int_of int_value (lookup (codes "port") ns)
  is_verbose ← flag_of (lookup (codes "verbose") ns)
  is_dryrun ← flag_of (lookup (codes "dryrun") ns)
  is_debug ← flag_of (lookup (codes "debug") ns)
  ok (record {
    data_names = data_names;
    array_request = array_request;
    num_cores = num_cores;
    port = port;
    is_verbose = is_verbose;
    is_dryrun = is_dryrun;
    is_debug = is_debug;
  })

abbrev pub with_options : ParseData Namespace → WorkerOptions → ParseData WorkerOptions
with_options parser_result options = record {
  options = options;
  shebang = parser_result.shebang;
  directives = parser_result.directives;
  script = parser_result.script;
  scheduler_options = parser_result.scheduler_options;
}

-- `config['worker']['path'] = ...`
abbrev pub with_path : FilePath → Config → Config
with_path distr_path config = record config {
  worker = record config.worker { path = path_text distr_path };
}

-- What is there after parsing: the parser of `wsub` sets both.
abbrev pub given_options : Option (List Text) → List Text
given_options none = []
given_options (some scheduler_options) = scheduler_options

abbrev pub given_script : Option Text → Text
given_script none = codes "None"
given_script (some script) = script

abbrev pub config_path : FilePath → FilePath
config_path distr_path = distr_path ++ codes "conf" ∷ codes "worker.conf" ∷ []

abbrev pub template_path : FilePath → FilePath
template_path distr_path = distr_path ++ codes "conf" ∷ codes "jobscript.tmpl" ∷ []

module _ (csv : CsvModule) (shell : Shell) (a : Argparse) (pathlib : Pathlib)
    (configparser : Configparser) (message : Exception → Text) (int_value : Text → ℤ)
    (distr_path cwd : FilePath) where
  -- The errors of parsing that the script handles.
  abbrev pub refused : Exception → World → Run
  refused file_not_found w =
      exit_on_error batch_file_error none (message_args (message file_not_found)) w
  refused argument_error w =
      exit_on_error scheduler_option_error none (message_args (message argument_error)) w
  refused e w = (w, raised e)

  abbrev pub after_options :
      Text → Config → ParseData Namespace → Result WorkerOptions → World → Option Run
  after_options uuid config parser_result (err e) w = some (w, raised e)
  after_options uuid config parser_result (ok options) w =
      wsub csv shell get_submit_output_parser message pathlib.place (template_path distr_path) cwd
        config (with_options parser_result options) (given_options parser_result.scheduler_options)
        (given_script parser_result.script) uuid w

  abbrev pub after_parse : Text → Config → Result (ParseData Namespace) → World → Option Run
  after_parse uuid config (err e) w = some (refused e w)
  after_parse uuid config (ok parser_result) w =
      after_options uuid config parser_result (worker_options int_value parser_result.options) w

  abbrev pub after_loading :
      Text → List Text → Config → Result SchedulerOptionParser → World → Option Run
  after_loading uuid args config (err e) w = some (w, raised e)
  after_loading uuid args config (ok scheduler_option_parser) w =
      after_parse uuid config (parse_submit a pathlib w.files scheduler_option_parser args) w

  abbrev pub after_config : Text → List Text → Result Config → World → Option Run
  after_config uuid args (err e) w = some (w, raised e)
  after_config uuid args (ok config) w =
      after_loading uuid args (with_path distr_path config)
        (get_scheduler_option_parser a config.scheduler.name) w

  -- The test `exists`.
  abbrev pub when_configured : Text → List Text → Option Entry → World → Option Run
  when_configured uuid args none w = some (
      exit_on_error config_error none
        (message_args (codes "\"" ++ (path_text (config_path distr_path) ++ codes "\" not found")))
        w)
  when_configured uuid args (some entry) w =
      after_config uuid args (read_config_file configparser w.files (config_path distr_path)) w

  -- `main`, with the arguments of the command line; `none` is out of fuel.
  unfoldable pub main : Text → List Text → World → Option Run
  unfolding exit_on_error wsub parse_submit get_scheduler_option_parser get_submit_output_parser
      read_config_file worker_options
  main uuid args w = when_configured uuid args (w.files (config_path distr_path)) w
