-- ===== src/Resume/Script.antt =====
-- The whole of `main` of scripts/wresume.py.in, from the command line on. The attributes of the options
-- are read at once, before the directory is made.
pub mod Failures
use worker_ng.Base.{
  ℕ, Bool, true, false, Option, none, some, List, [], ◌∷◌, ◌++◌, ℤ, map, length, if◌then◌else◌,
}
use worker_ng.Text.{Text, codes}
use worker_ng.Text.Numbers.{str}
use worker_ng.Dict.{lookup}
use worker_ng.Errors.{
  Result, ok, err, Exception, file_not_found, worker_dir, worker_dir_error, type_error, ◌>>=◌,
}
use worker_ng.Config.{Config}
use worker_ng.Jobscript.{JobOptions, create_jobscript}
use worker_ng.Logs.Report
use worker_ng.Logs.Report.{Pandas}
use worker_ng.Workfile.{Output, filter_workfile}
use worker_ng.Artifacts.Paths.{FilePath, path_text}
use worker_ng.Artifacts.{
  World, say, write_file, create_tempdir, exit, raised, Run, exit_on_error, read_file,
}
use worker_ng.Artifacts.Exits.{message_args}
use worker_ng.Options.{ParseData}
use worker_ng.Options.CommandLine.{join}
use worker_ng.Options.Argparse.{Namespace, Argparse}
use worker_ng.Options.Attributes.{flag_of, int_of, optional_int_of}
use worker_ng.Options.Parser.{SchedulerOptionParser, Pathlib, text_of, parse_resubmit}
use worker_ng.Options.Loading.{get_scheduler_option_parser, get_scheduler_options_preprocessor}
use worker_ng.Submission.{Shell, submit_job}
use worker_ng.Resume.{separator, work_ids, some_report}
use worker_ng.Wsub.{finished, partial}
use worker_ng.Wsub.Script.{Configparser, read_config_file, config_path, template_path, with_path}
use worker_ng.Resume.Job.{ResumeOptions, Job, run_job}

unfoldable pub resume_options : (Text → ℤ) → Namespace → Result ResumeOptions
unfolding lookup
resume_options int_value ns = do
  directory ← text_of (lookup (codes "dir") ns)
  redo ← flag_of (lookup (codes "redo") ns)
  num_cores ← int_of int_value (lookup (codes "num_cores") ns)
  port ← optional_int_of int_value (lookup (codes "port") ns)
  is_verbose ← flag_of (lookup (codes "verbose") ns)
  is_dryrun ← flag_of (lookup (codes "dryrun") ns)
  ok (record {
    directory = directory;
    redo = redo;
    num_cores = num_cores;
    port = port;
    is_verbose = is_verbose;
    is_dryrun = is_dryrun;
  })

module _ (pd : Pandas) (shell : Shell) (a : Argparse) (pathlib : Pathlib)
    (configparser : Configparser) (message : Exception → Text) (int_value : Text → ℤ)
    (repr : Text → Text) (distr_path cwd : FilePath) where
  -- The errors of parsing that the script handles.
  abbrev pub refused : Exception → World → Run
  refused (worker_dir msg) w =
      exit_on_error worker_dir_error none (message_args (message (worker_dir msg))) w
  refused file_not_found w =
      exit_on_error worker_dir_error none (message_args (message file_not_found)) w
  refused e w = (w, raised e)

  -- What the run is given, when all has been read.
  abbrev pub job_of :
      Text → Config → ParseData Namespace → (List Text → List Text) → ResumeOptions → Job
  job_of uuid config parser_result preprocess_options options = record {
    config = config;
    parser_result = parser_result;
    options = options;
    preprocess_options = preprocess_options;
    previous_job_dir = pathlib.place options.directory;
    tempdir_path = cwd ++ (config.worker.tempdir_prefix ++ uuid) ∷ [];
  }

  -- The directory is made after the options have been read.
  abbrev pub with_tempdir : Job → Result (FilePath × World) → World → Run
  with_tempdir job (err e) w = (w, raised e)
  with_tempdir job (ok (tempdir_path, w')) w =
      run_job pd shell repr distr_path cwd (record job { tempdir_path = tempdir_path }) w'

  abbrev pub after_options :
      Text
      → Config
      → (List Text → List Text)
      → ParseData Namespace
      → Result ResumeOptions
      → World
      → Run
  after_options uuid config preprocess_options parser_result (err e) w = (w, raised e)
  after_options uuid config preprocess_options parser_result (ok options) w =
      with_tempdir (job_of uuid config parser_result preprocess_options options)
        (create_tempdir cwd config.worker.tempdir_prefix uuid w) w

  abbrev pub after_parse :
      Text → Config → (List Text → List Text) → Result (ParseData Namespace) → World → Run
  after_parse uuid config preprocess_options (err e) w = refused e w
  after_parse uuid config preprocess_options (ok parser_result) w =
      after_options uuid config preprocess_options parser_result
        (resume_options int_value parser_result.options) w

  -- The two parts of the scheduler.
  abbrev pub load_scheduler : Text → Result (SchedulerOptionParser × (List Text → List Text))
  load_scheduler scheduler_name = do
    scheduler_option_parser ← get_scheduler_option_parser a scheduler_name
    preprocess_options ← get_scheduler_options_preprocessor scheduler_name
    ok (scheduler_option_parser, preprocess_options)

  abbrev pub after_loading :
      Text
      → List Text
      → Config
      → Result (SchedulerOptionParser × (List Text → List Text))
      → World
      → Run
  after_loading uuid args config (err e) w = (w, raised e)
  after_loading uuid args config (ok (scheduler_option_parser, preprocess_options)) w =
      after_parse uuid config preprocess_options
        (parse_resubmit a pathlib w.files scheduler_option_parser args) w

  abbrev pub after_config : Text → List Text → Result Config → World → Run
  after_config uuid args (err e) w = (w, raised e)
  after_config uuid args (ok config) w =
      after_loading uuid args (with_path distr_path config) (load_scheduler config.scheduler.name) w

  -- `main`, with the arguments of the command line.
  unfoldable pub main : Text → List Text → World → Run
  unfolding exit_on_error parse_resubmit get_scheduler_option_parser read_config_file resume_options
      get_scheduler_options_preprocessor create_tempdir create_jobscript submit_job filter_workfile
      work_ids Report.parse read_file
  main uuid args w =
      after_config uuid args (read_config_file configparser w.files (config_path distr_path)) w
