-- ===== src/Wsub.antt =====
-- `main` of scripts/wsub.py.in, from the parsed options on: the directory with its files, the
-- submission, and what is left on an error. The attributes of the options have their types here. A
-- work file that was begun when an exception came is left out, and `uuid` makes a new name.
pub mod Changes
pub mod CleanUp
pub mod Leftovers
pub mod Submitted
pub mod Script
use worker_ng.Base.{Bool, true, false, Option, none, some, List, [], ◌∷◌, ◌++◌, ℤ, if◌then◌else◌}
use worker_ng.Text.{Text, codes, text_eq}
use worker_ng.Text.Numbers.{str}
use worker_ng.Errors.{
  Result, ok, err, Exception, value_error, file_not_found, job_submission, data_error,
  submission_error, not_a_directory, directory_not_empty, ◌>>=◌,
}
use worker_ng.DataSources.Csv.{CsvModule, Files}
use worker_ng.Config.{Config}
use worker_ng.Jobscript.{JobOptions, create_jobscript}
use worker_ng.Workfile.{Output}
use worker_ng.Workfile.Sources.{Request, create_workfile_from}
use worker_ng.Artifacts.Paths.{FilePath, path_eq, is_under, path_text}
use worker_ng.Artifacts.{
  Entry, file, dir, FileSystem, World, say, write_file, create_tempdir, create_cleanup_function,
  Ending, exit, raised, Run, exit_on_error, read_file,
}
use worker_ng.Artifacts.Exits.{message_args}
use worker_ng.Options.{ParseData}
use worker_ng.Submission.{Shell, Submission, submit_job, renamed}

-- The attributes that the script reads.
pub record WorkerOptions : Type 0 where
  pub data_names : Option (List Text)
  pub array_request : Option Text
  pub num_cores : ℤ
  pub port : Option ℤ
  pub is_verbose : Bool
  pub is_dryrun : Bool
  pub is_debug : Bool

-- What `p.rename(q)` leaves when it succeeds: what lies below a path is found below the other.
abbrev pub moved : FilePath → Option FilePath → Bool → FileSystem → FileSystem
moved p (some rest) gone fs r = fs (p ++ rest)
moved p none true fs r = none
moved p none false fs r = fs r

-- The path from another path on.
unfoldable pub relative_to : FilePath → FilePath → Option FilePath
relative_to [] r = some r
relative_to (c ∷ q) [] = none
relative_to (c ∷ q) (d ∷ r) = let rest = relative_to q r in if text_eq c d then rest else none

abbrev pub renamed_to : FilePath → FilePath → World → World
renamed_to p q w = record w { files = λ r. moved p (relative_to q r) (is_under p r) w.files r }

-- Whether a directory can be renamed, by what has the other name: only an empty directory gives way.
abbrev pub target_check : Bool → Option Entry → Result (Unit {0})
target_check empty none = ok tt
target_check empty (some (file s)) = err not_a_directory
target_check empty (some dir) = if empty then ok tt else err directory_not_empty

-- `p.rename(q)`, of a directory; renaming it to its own name does nothing.
unfoldable pub rename : Shell → FilePath → FilePath → World → Result World
unfolding relative_to
rename shell p q w = do
  checked ← if path_eq p q then ok tt else target_check (shell.is_empty w.files q) (w.files q)
  ok (renamed_to p q w)

-- The errors of the data sources that the script handles.
abbrev pub is_data_error : Exception → Bool
is_data_error (value_error msg) = true
is_data_error file_not_found = true
is_data_error e = false

-- An `open` that creates the job script comes before the template is filled in.
abbrev pub partial : Result Text → Text
partial (ok text) = text
partial (err e) = []

-- What is printed behind the rename.
abbrev pub announced : Output → Text → World → Result World → Run
announced out job_id w (err e) = (w, raised e)
announced out job_id w (ok w') =
    (say job_id (say (codes "total number of work items: " ++ str out.item_count) w'), exit 0)

-- What the script does at the end with the identification of the job.
abbrev pub finished : Shell → FilePath → FilePath → Output → Option Text → World → Run
finished shell cwd tempdir_path out none w = (w, exit 0)
finished shell cwd tempdir_path out (some []) w = (w, exit 0)
finished shell cwd tempdir_path out (some (c ∷ job_id)) w =
    announced out (c ∷ job_id) w
      (rename shell tempdir_path (cwd ++ (codes "worker_" ++ c ∷ job_id) ∷ []) w)

module _ (csv : CsvModule) (shell : Shell) (output_parser : Text → Result (Text → Result Text))
    (message : Exception → Text) (place : Text → FilePath) (template_path cwd : FilePath)
    (config : Config) (parser_result : ParseData WorkerOptions) (scheduler_options : List Text)
    (script : Text) where
  abbrev pub options : WorkerOptions
  options = parser_result.options

  abbrev pub job_options : JobOptions
  job_options = record {
    shebang = parser_result.shebang;
    directives = parser_result.directives;
    port = options.port;
    num_cores = options.num_cores;
  }

  -- The data files, by the places of their names.
  abbrev pub data_files : FileSystem → Files
  data_files fs name = read_file fs (place name)

  abbrev pub request : Request
  request = record {
    files = options.data_names;
    array_request = options.array_request;
    script = script;
  }

  -- `cleanup_function`
  abbrev pub cleanup : FilePath → World → World
  cleanup tempdir_path w =
      create_cleanup_function (tempdir_path ∷ []) options.is_debug options.is_verbose w

  -- From the scheduler's answer on.
  abbrev pub answered : FilePath → Output → Result (Option Text) → World → Run
  answered tempdir_path out (err (job_submission msg)) w =
      exit_on_error submission_error (some (cleanup tempdir_path)) (message_args msg) w
  answered tempdir_path out (err e) w = (w, raised e)
  answered tempdir_path out (ok job_id) w = finished shell cwd tempdir_path out job_id w

  abbrev pub answer : (Text → Result Text) → Result Text → Result (Option Text)
  answer parse outcome = do
    submit_output ← outcome
    if options.is_dryrun then ok none else (do job_id ← parse submit_output; ok (some job_id))

  -- The command is stored, and printed by a dry run.
  abbrev pub stored : FilePath → Text → World → World
  stored tempdir_path command w =
      let w' = write_file (tempdir_path ++ codes "submit.sh" ∷ []) command w in
      if options.is_dryrun then record w' { stdout = w'.stdout ++ command } else w'

  abbrev pub submitting : FilePath → Output → Result (Text → Result Text) → World → Run
  submitting tempdir_path out (err e) w = (w, raised e)
  submitting tempdir_path out (ok parse) w =
      let jobscript_path = path_text (tempdir_path ++ codes "jobscript.sh" ∷ []) in
      let submission =
        submit_job shell config.scheduler.submit_command scheduler_options jobscript_path
          options.is_dryrun in
      answered tempdir_path out (answer parse submission.outcome)
        (stored tempdir_path submission.file w)

  abbrev pub after_jobscript : FilePath → Output → Result Text → World → Run
  after_jobscript tempdir_path out (err e) w = (w, raised e)
  after_jobscript tempdir_path out (ok text) w =
      submitting tempdir_path out (output_parser config.scheduler.name) w

  -- The template is read before the job script is opened.
  abbrev pub from_template : FilePath → Output → Result Text → World → Run
  from_template tempdir_path out (err e) w = (w, raised e)
  from_template tempdir_path out (ok template) w =
      let jobscript = create_jobscript cwd job_options template config in
      after_jobscript tempdir_path out jobscript
        (write_file (tempdir_path ++ codes "jobscript.sh" ∷ []) (partial jobscript) w)

  abbrev pub after_workfile : FilePath → Result Output → World → Run
  after_workfile tempdir_path (err e) w =
      if is_data_error e
      then exit_on_error data_error (some (cleanup tempdir_path)) (message_args (message e)) w
      else (w, raised e)
  after_workfile tempdir_path (ok out) w =
      from_template tempdir_path out (read_file w.files template_path)
        (write_file (tempdir_path ++ codes "workerfile.txt" ∷ []) out.text w)

  abbrev pub when_done : FilePath → Option (Result Output) → World → Option Run
  when_done tempdir_path none w = none
  when_done tempdir_path (some out) w = some (after_workfile tempdir_path out w)

  abbrev pub with_tempdir : Result (FilePath × World) → World → Option Run
  with_tempdir (err e) w = some (w, raised e)
  with_tempdir (ok (tempdir_path, w')) w =
      when_done tempdir_path
        (create_workfile_from csv (data_files w'.files) config.worker.workitem_separator
          config.scheduler.arrayid_var_name request)
        w'

  -- `none` is out of fuel, in the loop over the rows.
  unfoldable pub wsub : Text → World → Option Run
  unfolding read_file create_workfile_from create_jobscript submit_job exit_on_error create_tempdir
      create_cleanup_function rename
  wsub uuid w = with_tempdir (create_tempdir cwd config.worker.tempdir_prefix uuid w) w
