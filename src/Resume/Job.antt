-- ===== src/Resume/Job.antt =====
-- `main` of scripts/wresume.py.in from the parsed options on: the items that are left to do, the files in
-- the new directory, and the submission. The text that `repr` makes of a text is an argument.
pub mod Leftovers
use worker_ng.Base.{
  ℕ, Bool, true, false, Option, none, some, List, [], ◌∷◌, ◌++◌, ℤ, map, length, if◌then◌else◌,
}
use worker_ng.Text.{Text, codes}
use worker_ng.Text.Numbers.{str}
use worker_ng.Dict.{lookup}
use worker_ng.Errors.{
  Result, ok, err, Exception, file_not_found, worker_dir, worker_dir_error, type_error, ◌>>=◌,
}
use worker_ng.Config.{Config}
use worker_ng.Jobscript.{JobOptions, create_jobscript}
use worker_ng.Logs.Report
use worker_ng.Logs.Report.{Pandas}
use worker_ng.Workfile.{Output, filter_workfile}
use worker_ng.Artifacts.Paths.{FilePath, path_text}
use worker_ng.Artifacts.{
  World, say, write_file, create_tempdir, exit, raised, Run, exit_on_error, read_file,
}
use worker_ng.Artifacts.Exits.{message_args}
use worker_ng.Options.{ParseData}
use worker_ng.Options.CommandLine.{join}
use worker_ng.Options.Argparse.{Namespace, Argparse}
use worker_ng.Options.Attributes.{flag_of, int_of, optional_int_of}
use worker_ng.Options.Parser.{SchedulerOptionParser, Pathlib, text_of, parse_resubmit}
use worker_ng.Options.Loading.{get_scheduler_option_parser, get_scheduler_options_preprocessor}
use worker_ng.Submission.{Shell, submit_job}
use worker_ng.Resume.{separator, work_ids, some_report}
use worker_ng.Wsub.{finished, partial}
use worker_ng.Wsub.Script.{Configparser, read_config_file, config_path, template_path, with_path}

-- The attributes that the script reads.
pub record ResumeOptions : Type 0 where
  pub directory : Text
  pub redo : Bool
  pub num_cores : ℤ
  pub port : Option ℤ
  pub is_verbose : Bool
  pub is_dryrun : Bool

-- `str` of a list, from the texts of its elements.
abbrev pub list_text : List Text → Text
list_text items = codes "[" ++ (join (codes ", ") items ++ codes "]")

-- What is there after parsing.
abbrev pub resubmitted : Option (List Text) → List Text
resubmitted none = []
resubmitted (some scheduler_options) = scheduler_options

-- What a run is given after its options.
pub record Job : Type 0 where
  pub config : Config
  pub parser_result : ParseData Namespace
  pub options : ResumeOptions
  pub preprocess_options : List Text → List Text
  pub previous_job_dir : FilePath
  pub tempdir_path : FilePath

module _ (pd : Pandas) (shell : Shell) (repr : Text → Text) (distr_path cwd : FilePath) where
  abbrev pub job_options : Job → JobOptions
  job_options job = record {
    shebang = job.parser_result.shebang;
    directives = job.parser_result.directives;
    port = job.options.port;
    num_cores = job.options.num_cores;
  }

  -- From the scheduler's answer on: it is taken for the identification of the job, and the number that is
  -- printed is of the items that were chosen.
  abbrev pub answered : Job → List ℕ → Result Text → World → Run
  answered job ids (err e) w = (w, raised e)
  answered job ids (ok job_id) w =
      finished shell cwd job.tempdir_path (record { item_count = length ids; text = [] })
        (some job_id) w

  -- The command is stored, and printed by a dry run.
  abbrev pub stored : Job → Text → World → World
  stored job command w =
      let w' = write_file (job.tempdir_path ++ codes "submit.sh" ∷ []) command w in
      if job.options.is_dryrun then record w' { stdout = w'.stdout ++ command } else w'

  -- The options are printed first.
  abbrev pub submitting : Job → List ℕ → World → Run
  submitting job ids w =
      let scheduler_options = resubmitted job.parser_result.scheduler_options in
      let told = say (list_text (map repr scheduler_options)) w in
      let submission =
        submit_job shell job.config.scheduler.submit_command
          (job.preprocess_options scheduler_options)
          (path_text (job.tempdir_path ++ codes "jobscript.sh" ∷ [])) job.options.is_dryrun in
      answered job ids submission.outcome (stored job submission.file told)

  abbrev pub after_jobscript : Job → List ℕ → Result Text → World → Run
  after_jobscript job ids (err e) w = (w, raised e)
  after_jobscript job ids (ok text) w = submitting job ids w

  abbrev pub from_template : Job → List ℕ → Result Text → World → Run
  from_template job ids (err e) w = (w, raised e)
  from_template job ids (ok template) w =
      let jobscript = create_jobscript cwd (job_options job) template job.config in
      after_jobscript job ids jobscript
        (write_file (job.tempdir_path ++ codes "jobscript.sh" ∷ []) (partial jobscript) w)

  abbrev pub workfile_path : Job → FilePath
  workfile_path job = job.tempdir_path ++ codes "workerfile.txt" ∷ []

  -- The new work file is opened before the old one.
  abbrev pub filtered : Job → List ℕ → Result Text → World → Run
  filtered job ids (err e) w = (write_file (workfile_path job) [] w, raised e)
  filtered job ids (ok workfile) w =
      let w' = write_file (workfile_path job) (filter_workfile separator ids workfile).text w in
      from_template job ids (read_file w'.files (template_path distr_path)) w'

  abbrev pub with_work : Job → List ℕ → World → Run
  with_work job [] w = (say (codes "no work to be done") w, exit 0)
  with_work job (k ∷ ks) w =
      filtered job (k ∷ ks)
        (read_file w.files (job.previous_job_dir ++ codes "workerfile.txt" ∷ [])) w

  abbrev pub told_items : Job → List ℕ → World → World
  told_items job ids w =
      if job.options.is_verbose
      then say (codes "wresume items to do: " ++ list_text (map str ids)) w
      else w

  abbrev pub after_report : Job → Result (List ℕ) → World → Run
  after_report job (err e) w = (w, raised e)
  after_report job (ok ids) w = with_work job ids (told_items job ids w)

  -- The items that the log leaves to do.
  abbrev pub items_to_do : Job → World → Result (List ℕ)
  items_to_do job w = do
    log ← read_file w.files (job.previous_job_dir ++ codes "server.log" ∷ [])
    parsed ← Report.parse pd log
    df ← some_report pd parsed
    ok (work_ids pd job.options.redo df)

  abbrev pub run_job : Job → World → Run
  run_job job w = after_report job (items_to_do job w) w
