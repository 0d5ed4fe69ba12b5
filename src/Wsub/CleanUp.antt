-- ===== src/Wsub/CleanUp.antt =====
-- What a failed submission leaves.
use mathlib.Core.Path.{subst}
use worker_ng.Base.{
  ℕ, suc, ◌≡◌, refl, sym, ap, ◌∙◌, true, false, Option, none, some, some_inj, List, [], ◌∷◌, ◌++◌,
  Bool-cases, inl, inr, All-In,
}
use worker_ng.Text.{Text, codes}
use worker_ng.Errors.{
  Result, ok, err, Exception, WorkerError, data_error, submission_error, job_submission,
}
use worker_ng.DataSources.Csv.{CsvModule}
use worker_ng.Config.{Config}
use worker_ng.Workfile.{Output}
use worker_ng.Artifacts.Paths.{
  FilePath, path_eq, is_under, eq_of_path_eq, path_eq_refl, is_under_refl,
}
use worker_ng.Artifacts.{
  dir, FileSystem, World, put, rmtree, complain, create_cleanup_function, mkdir, remove_artifacts,
  remove_artifact, exit, raised, Run, exit_on_error, read_file,
}
use worker_ng.Artifacts.Exits.{introductions, message_args, Reports, exit_on_error-Reports}
use worker_ng.Artifacts.Making.{create_tempdir-cases}
use worker_ng.Options.{ParseData}
use worker_ng.Submission.{Shell}
use worker_ng.Wsub.{
  WorkerOptions, is_data_error, answered, stored, submitting, after_jobscript, from_template,
  after_workfile, when_done, with_tempdir, wsub,
}
use worker_ng.Wsub.Changes.{Within, Within-put, IsRestored, raised-IsRestored, finished-IsRestored}

module _ (csv : CsvModule) (shell : Shell) (output_parser : Text → Result (Text → Result Text))
    (message : Exception → Text) (place : Text → FilePath) (template_path cwd : FilePath)
    (config : Config) (parser_result : ParseData WorkerOptions) (scheduler_options : List Text)
    (script : Text) (t : FilePath) (before : FileSystem)
    (debug : parser_result.options.is_debug ≡ false)
    (fresh : (q : FilePath) → is_under t q ≡ true → before q ≡ none) where
  cleanup-files :
      (w : World) (q : FilePath)
      → Within t before w.files
      → (create_cleanup_function
            (t ∷ [])
            parser_result.options.is_debug
            parser_result.options.is_verbose
            w).files
          q
        ≡ before q
  unfolding create_cleanup_function remove_artifacts remove_artifact rmtree
  cleanup-files w q h =
      rw (debug, h.there)
        (elim (Bool-cases (is_under t q)) [
          | inl e ↦ rw e (sym (fresh q e))
          | inr e ↦ rw e (h.outside q e)
        ])

  exit_on_error-IsRestored :
      (error : WorkerError) (introduction msg : Text) (w : World)
      → Reports (error, introduction)
      → Within t before w.files
      → IsRestored before (
          exit_on_error error
            (some (
              create_cleanup_function
                (t ∷ [])
                parser_result.options.is_debug
                parser_result.options.is_verbose))
            (message_args msg)
            w)
  unfolding IsRestored
  exit_on_error-IsRestored error introduction msg w reports h =
      rw
        (reports
          (some (
            create_cleanup_function (t ∷ []) parser_result.options.is_debug
              parser_result.options.is_verbose))
          msg w)
        (λ n e q. cleanup-files (complain (codes "error: " ++ (introduction ++ msg)) w) q h)

  submission_error-Reports : Reports (submission_error, codes "job submission issue, ")
  submission_error-Reports =
      All-In Reports (submission_error, codes "job submission issue, ") introductions
        exit_on_error-Reports.0 (inr (inr (inr (inr (inl refl)))))

  data_error-Reports : Reports (data_error, codes "data source issue, ")
  data_error-Reports =
      All-In Reports (data_error, codes "data source issue, ") introductions exit_on_error-Reports.0
        (inr (inr (inl refl)))

  answered-IsRestored :
      (out : Output) (r : Result (Option Text)) (w : World)
      → Within t before w.files
      → IsRestored before (
          answered csv shell output_parser message place template_path cwd config parser_result
            scheduler_options script t out r w)
  answered-IsRestored out (ok job_id) w h = finished-IsRestored before shell cwd t out job_id w
  answered-IsRestored out (err (job_submission msg)) w h =
      exit_on_error-IsRestored submission_error (codes "job submission issue, ") msg w
        submission_error-Reports h
  answered-IsRestored out (err e) w h = raised-IsRestored before w e

  stored-Within :
      (command : Text) (w : World)
      → Within t before w.files
      → Within t before
          (stored csv shell output_parser message place template_path cwd config parser_result
            scheduler_options script t command w).files
  stored-Within command w h =
      let below = Within-put t (codes "submit.sh") command before w.files h in
      elim (Bool-cases parser_result.options.is_dryrun) [ inl e ↦ rw e below | inr e ↦ rw e below ]

  submitting-IsRestored :
      (out : Output) (r : Result (Text → Result Text)) (w : World)
      → Within t before w.files
      → IsRestored before (
          submitting csv shell output_parser message place template_path cwd config parser_result
            scheduler_options script t out r w)
  submitting-IsRestored out (err e) w h = raised-IsRestored before w e
  submitting-IsRestored out (ok parse) w h = answered-IsRestored out _ _ (stored-Within _ w h)

  after_jobscript-IsRestored :
      (out : Output) (r : Result Text) (w : World)
      → Within t before w.files
      → IsRestored before (
          after_jobscript csv shell output_parser message place template_path cwd config
            parser_result scheduler_options script t out r w)
  after_jobscript-IsRestored out (err e) w h = raised-IsRestored before w e
  after_jobscript-IsRestored out (ok text) w h =
      submitting-IsRestored out (output_parser config.scheduler.name) w h

  from_template-IsRestored :
      (out : Output) (r : Result Text) (w : World)
      → Within t before w.files
      → IsRestored before (
          from_template csv shell output_parser message place template_path cwd config parser_result
            scheduler_options script t out r w)
  from_template-IsRestored out (err e) w h = raised-IsRestored before w e
  from_template-IsRestored out (ok template) w h =
      after_jobscript-IsRestored out _ _ (Within-put t (codes "jobscript.sh") _ before w.files h)

  after_workfile-IsRestored :
      (r : Result Output) (w : World)
      → Within t before w.files
      → IsRestored before (
          after_workfile csv shell output_parser message place template_path cwd config
            parser_result scheduler_options script t r w)
  after_workfile-IsRestored (ok out) w h =
      from_template-IsRestored out (read_file w.files template_path) _
        (Within-put t (codes "workerfile.txt") out.text before w.files h)
  after_workfile-IsRestored (err e) w h = elim (Bool-cases (is_data_error e)) [
    | inl f ↦ rw f (
        exit_on_error-IsRestored data_error (codes "data source issue, ") (message e) w
          data_error-Reports h)
    | inr f ↦ rw f (raised-IsRestored before w e)
  ]

  when_done-IsRestored :
      (o : Option (Result Output)) (w : World) (r : Run)
      → Within t before w.files
      → when_done csv shell output_parser message place template_path cwd config parser_result
          scheduler_options script t o w
        ≡ some r
      → IsRestored before r
  when_done-IsRestored none w r h e = cc
  when_done-IsRestored (some out) w r h e =
      subst (IsRestored before) (some_inj e) (after_workfile-IsRestored out w h)

  -- A new directory and nothing else.
  create_tempdir-Within : (w : World) → w.files ≡ before → Within t before (put t dir w.files)
  unfolding put
  create_tempdir-Within w same = record {
    there = rw (path_eq_refl t) refl;
    outside = λ r out. elim (Bool-cases (path_eq t r)) [
      | inl f ↦
          let under : is_under t r ≡ true =
            ap (is_under t) (sym (eq_of_path_eq t r f)) ∙ is_under_refl t in
          cc
      | inr f ↦ rw f (ap (λ (fs : FileSystem). fs r) same)
    ];
  }

-- Where the directory that the script makes is new, nothing has been there, and debug mode is off:
-- if the script ends with a status other than zero, for an error of the data or of the submission, then
-- every file is as it was before, and nothing of the work file, the job script or the stored command stays.
pub wsub-Restores :
    (csv : CsvModule) (shell : Shell) (output_parser : Text → Result (Text → Result Text))
    (message : Exception → Text) (place : Text → FilePath) (template_path cwd : FilePath)
    (config : Config) (parser_result : ParseData WorkerOptions) (scheduler_options : List Text)
    (script uuid : Text) (w w' : World) (n : ℕ)
    → parser_result.options.is_debug ≡ false
    → ((q : FilePath)
        → is_under (cwd ++ (config.worker.tempdir_prefix ++ uuid) ∷ []) q ≡ true
        → w.files q ≡ none)
    → wsub csv shell output_parser message place template_path cwd config parser_result
        scheduler_options script uuid w
      ≡ some (w', exit (suc n))
    → (q : FilePath) → w'.files q ≡ w.files q
unfolding wsub IsRestored
wsub-Restores csv shell output_parser message place template_path cwd config parser_result
      scheduler_options script uuid w w' n debug fresh e q =
    let t = cwd ++ (config.worker.tempdir_prefix ++ uuid) ∷ [] in
    elim (create_tempdir-cases cwd config.worker.tempdir_prefix uuid w) [
      | inr (x, f) ↦
          let ends : some (w, raised x) ≡ some (w', exit (suc n)) =
            ap
              (λ (r : Result (FilePath × World)).
                with_tempdir csv shell output_parser message place template_path cwd config
                  parser_result scheduler_options script r w)
              (sym f)
            ∙ e in
          absurd cc
      | inl f ↦
          let run =
            ap
              (λ (r : Result (FilePath × World)).
                with_tempdir csv shell output_parser message place template_path cwd config
                  parser_result scheduler_options script r w)
              (sym f)
            ∙ e in
          when_done-IsRestored csv shell output_parser message place template_path cwd config
            parser_result scheduler_options script t w.files debug fresh _ (mkdir t w)
            (w', exit (suc n))
            (create_tempdir-Within csv shell output_parser message place template_path cwd config
              parser_result scheduler_options script t w.files debug fresh w refl)
            run n refl q
    ]
