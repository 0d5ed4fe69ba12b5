-- ===== src/Resume/Script/Failures.antt =====
-- How a run that does not submit a job ends, from the command line on.
use worker_ng.Base.{◌≡◌, ◌≢◌, ◌⊎◌, refl, inl, inr, none, some, List, [], ◌∷◌, ◌++◌, ℤ, map, All-In}
use worker_ng.Text.{Text, codes}
use worker_ng.Dict.{lookup}
use worker_ng.Errors.{ok, Exception, worker_dir, worker_dir_error}
use worker_ng.Config.{Config}
use worker_ng.Logs.Report.{Pandas}
use worker_ng.Artifacts.Paths.{FilePath}
use worker_ng.Artifacts.{dir, World, complain, mkdir, exit}
use worker_ng.Artifacts.Making.{create_tempdir-ok, mkdir-there}
use worker_ng.Artifacts.Exits.{introductions, Reports, exit_on_error-Reports}
use worker_ng.Options.{ParseData}
use worker_ng.Options.Argparse.{Namespace, Argparse}
use worker_ng.Options.CommandLine.{text_value}
use worker_ng.Options.Schedulers.{lower, words}
use worker_ng.Options.Parser.{Pathlib, resubmit_arguments, cl_parser, parse_resubmit}
use worker_ng.Options.Parser.Again.{complaint, parse_resubmit-directory}
use worker_ng.Options.Loading.{Scheduler, parser_of, preprocessor_of}
use worker_ng.Options.Loading.Named.{name_words, get_scheduler-name_words}
use worker_ng.Submission.{Shell}
use worker_ng.Wsub.Script.{Configparser, read_config_file, config_path, with_path}
use worker_ng.Resume.Job.{ResumeOptions, Job, items_to_do}
use worker_ng.Resume.Job.Leftovers.{run_job-Leaves}
use worker_ng.Resume.Script.{resume_options, load_scheduler, job_of, main}

worker_dir_error-Reports : Reports (worker_dir_error, codes "worker directory issue, ")
worker_dir_error-Reports =
    All-In Reports (worker_dir_error, codes "worker directory issue, ") introductions
      exit_on_error-Reports.0 (inr (inr (inr (inr (inr (inr (inl refl)))))))

module _ (pd : Pandas) (shell : Shell) (a : Argparse) (pathlib : Pathlib)
    (configparser : Configparser) (message : Exception → Text) (int_value : Text → ℤ)
    (repr : Text → Text) (distr_path cwd : FilePath) (uuid : Text) (args : List Text) (w : World)
    (config : Config) (s : Scheduler)
    (configured : read_config_file configparser w.files (config_path distr_path) ≡ ok config)
    (known : map lower (words config.scheduler.name) ≡ name_words s) where
  load_scheduler-known :
      load_scheduler pd shell a pathlib configparser message int_value repr distr_path cwd
        config.scheduler.name
      ≡ ok (parser_of a s, preprocessor_of s)
  load_scheduler-known =
      let (parser, preprocessor, _) = get_scheduler-name_words a s config.scheduler.name known in
      rw (parser, preprocessor) refl

  -- Under a configuration that names one of the two schedulers, where the name that is given with `--dir` is
  -- that of nothing, or of a file, the script prints which, ends with status 14, and no file is changed.
  pub main-directory :
      (name : Text) (rest : List Text) {cl_options : Namespace}
      → a.parse_known_args (cl_parser (parser_of a s) resubmit_arguments) args []
        ≡ ok (cl_options, rest)
      → lookup (codes "dir") cl_options ≡ some (text_value name)
      → w.files (pathlib.place name) ≢ some dir
      → main pd shell a pathlib configparser message int_value repr distr_path cwd uuid args w ≡ (
        complain
            (codes "error: "
              ++ (codes "worker directory issue, "
                  ++ message
                      (worker_dir (complaint (pathlib.shown name) (w.files (pathlib.place name))))))
            w,
        exit 14,
      )
  unfolding main
  main-directory name rest parsed named missing =
      rw
        (
          configured,
          load_scheduler-known,
          parse_resubmit-directory a pathlib w.files (parser_of a s) args rest name parsed named
              missing,
        )
        (worker_dir_error-Reports none _ w)

  module _ (parser_result : ParseData Namespace) (options : ResumeOptions)
      (parsed : parse_resubmit a pathlib w.files (parser_of a s) args ≡ ok parser_result)
      (attributes : resume_options int_value parser_result.options ≡ ok options)
      (there : w.files cwd ≡ some dir)
      (free : w.files (cwd ++ (config.worker.tempdir_prefix ++ uuid) ∷ []) ≡ none) where
    -- The job that a run comes to.
    abbrev pub job : Job
    job =
        job_of pd shell a pathlib configparser message int_value repr distr_path cwd uuid
          (with_path distr_path config) parser_result (preprocessor_of s) options

    -- Under a configuration that names one of the two schedulers, where the options are read and the working
    -- directory is there and has no entry with the name of the new directory, which is made then: if the script
    -- does not end with status zero, or has no work to do, the directory that it has made is left behind.
    pub main-Leaves :
        ((main pd shell a pathlib configparser message int_value repr distr_path cwd uuid args w).1
            ≢ exit 0)
          ⊎ (items_to_do pd shell repr distr_path cwd job (mkdir job.tempdir_path w) ≡ ok [])
        → (main pd shell a pathlib configparser message int_value repr distr_path cwd uuid args
              w).0.files
            job.tempdir_path
          ≡ some dir
    unfolding main
    main-Leaves =
        rw
          (
            configured,
            load_scheduler-known,
            parsed,
            attributes,
            create_tempdir-ok cwd config.worker.tempdir_prefix uuid w there free,
          )
          (run_job-Leaves pd shell repr distr_path cwd job (mkdir job.tempdir_path w)
            (mkdir-there job.tempdir_path w))
