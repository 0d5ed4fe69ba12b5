-- ===== src/Wsub/Submitted.antt =====
-- A run that submits a job.
use worker_ng.Base.{
  ℕ, ◌≡◌, ◌≢◌, refl, sym, ◌∙◌, false, none, some, List, [], ◌∷◌, ◌++◌, Bool-cases, inl, inr,
}
use worker_ng.Text.{Text, codes, text_eq}
use worker_ng.Text.Equality.{text_eq_iff, text_eq_refl}
use worker_ng.Text.Numbers.{str}
use worker_ng.Errors.{Result, ok, Exception}
use worker_ng.DataSources.Csv.{CsvModule}
use worker_ng.Config.{Config}
use worker_ng.Jobscript.{create_jobscript}
use worker_ng.Workfile.{Output, print}
use worker_ng.Workfile.Sources.{create_workfile_from}
use worker_ng.Artifacts.Paths.{FilePath, path_eq, path_text, path_eq_refl, is_under_refl}
use worker_ng.Artifacts.{
  Entry, file, dir, FileSystem, World, say, mkdir, write_file, put, exit, read_file,
}
use worker_ng.Artifacts.Making.{create_tempdir-ok}
use worker_ng.Options.{ParseData}
use worker_ng.Shlex
use worker_ng.Submission.{Shell, answer_of, submit_job}
use worker_ng.Wsub.{
  WorkerOptions, job_options, data_files, request, relative_to, rename, renamed_to, wsub,
}

relative_to-append : (q r : FilePath) → relative_to q (q ++ r) ≡ some r
unfolding relative_to
relative_to-append [] r = refl
relative_to-append (c ∷ q) r = rw (text_eq_refl c, relative_to-append q r) refl

-- What lay below a directory is found below its new name.
rename-below :
    (p q : FilePath) (c : Text) (w : World)
    → (renamed_to p q w).files (q ++ c ∷ []) ≡ w.files (p ++ c ∷ [])
rename-below p q c w = rw (relative_to-append q (c ∷ [])) refl

-- Beside another name, the old one is gone.
relative_to-other :
    (p : FilePath) (c d : Text) → d ≢ c → relative_to (p ++ c ∷ []) (p ++ d ∷ []) ≡ none
unfolding relative_to
relative_to-other [] c d h = elim (Bool-cases (text_eq c d)) [
  | inl e ↦ absurd (h (sym ((text_eq_iff c d).0 e)))
  | inr e ↦ rw e refl
]
relative_to-other (e ∷ p) c d h = rw (text_eq_refl e, relative_to-other p c d h) refl

rename-gone :
    (p : FilePath) (c d : Text) (w : World)
    → d ≢ c
    → (renamed_to (p ++ d ∷ []) (p ++ c ∷ []) w).files (p ++ d ∷ []) ≡ none
rename-gone p c d w h = rw (relative_to-other p c d h, is_under_refl (p ++ d ∷ [])) refl

-- A file that is written is there, and what is written beside it does not change it.
put-same : (p : FilePath) (e : Entry) (fs : FileSystem) → put p e fs p ≡ some e
unfolding put
put-same p e fs = rw (path_eq_refl p) refl

path_eq_beside :
    (t : FilePath) (c d : Text) → text_eq c d ≡ false → path_eq (t ++ c ∷ []) (t ++ d ∷ []) ≡ false
unfolding path_eq
path_eq_beside [] c d h = rw h refl
path_eq_beside (e ∷ t) c d h = rw (text_eq_refl e) (path_eq_beside t c d h)

put-beside :
    (t : FilePath) (c d : Text) (e : Entry) (fs : FileSystem)
    → text_eq c d ≡ false
    → put (t ++ c ∷ []) e fs (t ++ d ∷ []) ≡ fs (t ++ d ∷ [])
unfolding put
put-beside t c d e fs h = rw (path_eq_beside t c d h) refl

text_ne : {a b : Text} → a ≢ b → text_eq a b ≡ false
text_ne {a} {b} h = elim (Bool-cases (text_eq a b)) [
  | inl e ↦ absurd (h ((text_eq_iff a b).0 e))
  | inr e ↦ e
]

-- The three files of a job, below its directory.
abbrev pub written : FilePath → Text → Text → Text → World → World
written t workfile jobscript command w = write_file (t ++ codes "submit.sh" ∷ []) command (
    write_file (t ++ codes "jobscript.sh" ∷ []) jobscript
      (write_file (t ++ codes "workerfile.txt" ∷ []) workfile (mkdir t w)))

-- Beside the directory nothing changes.
path_eq_deeper :
    (p : FilePath) (c d x : Text)
    → text_eq c d ≡ false
    → path_eq (p ++ c ∷ [] ++ x ∷ []) (p ++ d ∷ []) ≡ false
unfolding path_eq
path_eq_deeper [] c d x h = rw h refl
path_eq_deeper (e ∷ p) c d x h = rw (text_eq_refl e) (path_eq_deeper p c d x h)

written-beside :
    (p : FilePath) (c d workfile jobscript command : Text) (w : World)
    → text_eq c d ≡ false
    → (written (p ++ c ∷ []) workfile jobscript command w).files (p ++ d ∷ [])
      ≡ w.files (p ++ d ∷ [])
unfolding put
written-beside p c d workfile jobscript command w h =
    rw
      (
        path_eq_deeper p c d (codes "submit.sh") h,
        path_eq_deeper p c d (codes "jobscript.sh") h,
        path_eq_deeper p c d (codes "workerfile.txt") h,
        path_eq_beside p c d h,
      )
      refl

-- A name that is not taken can be given.
rename-ok :
    (shell : Shell) (p q : FilePath) (w : World)
    → path_eq p q ≡ false
    → w.files q ≡ none
    → rename shell p q w ≡ ok (renamed_to p q w)
unfolding rename
rename-ok shell p q w h free = rw (h, free) refl

pub record IsJob (d : FilePath) (workfile jobscript command : Text) (fs : FileSystem) : Type 0 where
  has_workfile : fs (d ++ codes "workerfile.txt" ∷ []) ≡ some (file workfile)
  has_jobscript : fs (d ++ codes "jobscript.sh" ∷ []) ≡ some (file jobscript)
  has_command : fs (d ++ codes "submit.sh" ∷ []) ≡ some (file command)

submit-workerfile : text_eq (codes "submit.sh") (codes "workerfile.txt") ≡ false
unfolding text_eq
submit-workerfile = refl

jobscript-workerfile : text_eq (codes "jobscript.sh") (codes "workerfile.txt") ≡ false
unfolding text_eq
jobscript-workerfile = refl

submit-jobscript : text_eq (codes "submit.sh") (codes "jobscript.sh") ≡ false
unfolding text_eq
submit-jobscript = refl

written-IsJob :
    (t : FilePath) (workfile jobscript command : Text) (w : World)
    → IsJob t workfile jobscript command (written t workfile jobscript command w).files
written-IsJob t workfile jobscript command w = record {
  has_workfile =
      put-beside t (codes "submit.sh") (codes "workerfile.txt") _ _ submit-workerfile
      ∙ put-beside t (codes "jobscript.sh") (codes "workerfile.txt") _ _ jobscript-workerfile
      ∙ put-same (t ++ codes "workerfile.txt" ∷ []) _ _;
  has_jobscript =
      put-beside t (codes "submit.sh") (codes "jobscript.sh") _ _ submit-jobscript
      ∙ put-same (t ++ codes "jobscript.sh" ∷ []) _ _;
  has_command = put-same (t ++ codes "submit.sh" ∷ []) _ _;
}

-- The job is found below the new name.
rename-IsJob :
    (p q : FilePath) (workfile jobscript command : Text) (w : World)
    → IsJob p workfile jobscript command w.files
    → IsJob q workfile jobscript command (renamed_to p q w).files
rename-IsJob p q workfile jobscript command w h = record {
  has_workfile = rename-below p q (codes "workerfile.txt") w ∙ h.has_workfile;
  has_jobscript = rename-below p q (codes "jobscript.sh") w ∙ h.has_jobscript;
  has_command = rename-below p q (codes "submit.sh") w ∙ h.has_command;
}

module _ (csv : CsvModule) (shell : Shell) (output_parser : Text → Result (Text → Result Text))
    (message : Exception → Text) (place : Text → FilePath) (template_path cwd : FilePath)
    (config : Config) (parser_result : ParseData WorkerOptions) (scheduler_options : List Text)
    (script uuid : Text) (w : World) where
  -- The directory that is made, and the command that is run.
  abbrev pub tempdir : FilePath
  tempdir = cwd ++ (config.worker.tempdir_prefix ++ uuid) ∷ []

  abbrev pub command : List Text
  command =
      config.scheduler.submit_command
      ∷ (scheduler_options ++ path_text (tempdir ++ codes "jobscript.sh" ∷ []) ∷ [])

  -- Where the working directory is there and has no entry with the name of the new directory, nor with that of
  -- the job, which is another; where the work file and the job script can be made, and the scheduler accepts the
  -- job, which is not a dry run, with an answer that holds a number: the script ends with status zero; below the name with the number there are the work file, the job script and the
  -- command that was run; nothing has the name of the directory that was made; and the number of work
  -- items and the job's number are printed.
  pub wsub-Submits :
      (out : Output) (template text answer : Text) (c : ℕ) (job_id : Text)
      (parse : Text → Result Text)
      → w.files cwd ≡ some dir
      → w.files tempdir ≡ none
      → w.files (cwd ++ (codes "worker_" ++ c ∷ job_id) ∷ []) ≡ none
      → create_workfile_from csv
          (data_files csv shell output_parser message place template_path cwd config parser_result
            scheduler_options script
            (mkdir tempdir w).files)
          config.worker.workitem_separator
          config.scheduler.arrayid_var_name
          (request csv shell output_parser message place template_path cwd config parser_result
            scheduler_options script)
        ≡ some (ok out)
      → read_file (mkdir tempdir w).files template_path ≡ ok template
      → create_jobscript cwd
          (job_options csv shell output_parser message place template_path cwd config parser_result
            scheduler_options script)
          template
          config
        ≡ ok text
      → output_parser config.scheduler.name ≡ ok parse
      → parser_result.options.is_dryrun ≡ false
      → answer_of (shell.run command) ≡ ok answer
      → parse answer ≡ ok (c ∷ job_id)
      → config.worker.tempdir_prefix ++ uuid ≢ codes "worker_" ++ c ∷ job_id
      → (w' : World) × (wsub csv shell output_parser message place template_path cwd config
            parser_result scheduler_options script uuid w
          ≡ some (w', exit 0))
        × IsJob
            (cwd ++ (codes "worker_" ++ c ∷ job_id) ∷ [])
            out.text
            text
            (print (Shlex.join command))
            w'.files
        × (w'.files tempdir ≡ none)
        × (w'.stdout
            ≡ w.stdout
              ++ print (codes "total number of work items: " ++ str out.item_count)
              ++ print (c ∷ job_id))
  unfolding wsub submit_job
  wsub-Submits out template text answer c job_id parse there free unused made read filled loaded
        no_dryrun accepted parsed other =
      let before = written tempdir out.text text (print (Shlex.join command)) w in
      let named : text_eq (config.worker.tempdir_prefix ++ uuid) (codes "worker_" ++ c ∷ job_id)
          ≡ false =
        text_ne other in
      let job_dir = cwd ++ (codes "worker_" ++ c ∷ job_id) ∷ [] in
      let renamed : rename shell tempdir job_dir before ≡ ok (renamed_to tempdir job_dir before) =
        rename-ok shell tempdir job_dir before
          (path_eq_beside cwd (config.worker.tempdir_prefix ++ uuid) (codes "worker_" ++ c ∷ job_id)
            named)
          (written-beside cwd (config.worker.tempdir_prefix ++ uuid) (codes "worker_" ++ c ∷ job_id)
              out.text text (print (Shlex.join command)) w named
            ∙ unused) in
      (
        say (c ∷ job_id) (
            say (codes "total number of work items: " ++ str out.item_count)
              (renamed_to tempdir job_dir before)),
        rw
            (
              create_tempdir-ok cwd config.worker.tempdir_prefix uuid w there free,
              made,
              read,
              filled,
              loaded,
              no_dryrun,
              accepted,
              parsed,
              renamed,
            )
            refl,
        rename-IsJob tempdir job_dir out.text text (print (Shlex.join command)) before
            (written-IsJob tempdir out.text text (print (Shlex.join command)) w),
        rename-gone cwd (codes "worker_" ++ c ∷ job_id) (config.worker.tempdir_prefix ++ uuid)
            before other,
        refl,
      )
