-- ===== src/Wsub/Script/BatchFile.antt =====
-- A batch file that is missing.
use worker_ng.Base.{◌≡◌, refl, ap, none, some, List, [], ◌++◌, ℤ, map, All-In, inl, inr}
use worker_ng.Text.{Text, codes}
use worker_ng.Dict.{lookup}
use worker_ng.Errors.{ok, err, Exception, batch_file_error, file_not_found}
use worker_ng.DataSources.Csv.{CsvModule}
use worker_ng.Config.{Config}
use worker_ng.Artifacts.Paths.{FilePath}
use worker_ng.Artifacts.{Entry, World, complain, exit, read_file}
use worker_ng.Artifacts.Exits.{introductions, Reports, exit_on_error-Reports}
use worker_ng.Options.Argparse.{Argparse}
use worker_ng.Options.CommandLine.{Value, text_value}
use worker_ng.Options.Schedulers.{lower, words}
use worker_ng.Options.Parser.{Pathlib, submit_arguments, cl_parser, filter_worker_cl, parse_submit}
use worker_ng.Options.Loading.{Scheduler, parser_of}
use worker_ng.Options.Loading.Named.{name_words, get_scheduler-name_words}
use worker_ng.Submission.{Shell}
use worker_ng.Wsub.Script.{Configparser, read_config_file, config_path, main}

batch_file_error-Reports : Reports (batch_file_error, codes "batch file issue, ")
batch_file_error-Reports =
    All-In Reports (batch_file_error, codes "batch file issue, ") introductions
      exit_on_error-Reports.0 (inr (inl refl))

module _ (csv : CsvModule) (shell : Shell) (a : Argparse) (pathlib : Pathlib)
    (configparser : Configparser) (message : Exception → Text) (int_value : Text → ℤ)
    (distr_path cwd : FilePath) (uuid : Text) (args : List Text) (w : World) where
  -- From the command line on: under a configuration that names one of the two schedulers, where the command
  -- line is read and names a batch file that does not exist, the script prints the message of that
  -- exception and ends with status 2, and no file is changed.
  pub main-batch_file :
      (config : Config) (s : Scheduler) (entry : Entry) (rest : List Text)
      (cl_options : List (Text × Value)) (name prefix : Text)
      → w.files (config_path distr_path) ≡ some entry
      → read_config_file configparser w.files (config_path distr_path) ≡ ok config
      → map lower (words config.scheduler.name) ≡ name_words s
      → a.parse_known_args (cl_parser (parser_of a s) submit_arguments) args []
        ≡ ok (cl_options, rest)
      → lookup (codes "script") cl_options ≡ some (text_value name)
      → lookup (codes "directive_prefix") cl_options ≡ some (text_value prefix)
      → read_file w.files (pathlib.place name) ≡ err file_not_found
      → main csv shell a pathlib configparser message int_value distr_path cwd uuid args w
        ≡ some (
          complain (codes "error: " ++ (codes "batch file issue, " ++ message file_not_found)) w,
          exit 2,
        )
  unfolding main parse_submit filter_worker_cl
  main-batch_file config s entry rest cl_options name prefix there configured known parsed named
        prefixed unread =
      rw
        (
          there,
          configured,
          (get_scheduler-name_words a s config.scheduler.name known).0,
          parsed,
          named,
          prefixed,
          unread,
        )
        (ap some (batch_file_error-Reports none (message file_not_found) w))
