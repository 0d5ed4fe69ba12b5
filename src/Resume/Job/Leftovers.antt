-- ===== src/Resume/Job/Leftovers.antt =====
-- The directory that the script makes, when it does not submit a job.
use worker_ng.Base.{length, ℕ, ◌≡◌, ◌≢◌, ◌⊎◌, refl, inl, inr, Bool-cases, some, List, [], ◌∷◌, ◌++◌}
use worker_ng.Text.{Text, codes}
use worker_ng.Errors.{Result, ok, err}
use worker_ng.Logs.Report.{Pandas}
use worker_ng.Artifacts.Paths.{FilePath}
use worker_ng.Artifacts.{file, dir, FileSystem, World, Run, exit, put}
use worker_ng.Submission.{Shell}
use worker_ng.Wsub.{rename, announced}
use worker_ng.Workfile.{Output}
use worker_ng.Wsub.Changes.{path_eq_longer}
use worker_ng.Resume.Job.{
  Job, answered, stored, submitting, after_jobscript, from_template, filtered, after_report,
  items_to_do, run_job, told_items,
}

-- A file is written below a directory.
put-below :
    (t : FilePath) (c s : Text) (fs : FileSystem)
    → fs t ≡ some dir
    → put (t ++ c ∷ []) (file s) fs t ≡ some dir
unfolding put
put-below t c s fs h = rw (path_eq_longer t c) h

-- The directory is there, unless the run has ended well.
abbrev pub Keeps : FilePath → Run → Type 0
Keeps t r = r.1 ≢ exit 0 → r.0.files t ≡ some dir

module _ (pd : Pandas) (shell : Shell) (repr : Text → Text) (distr_path cwd : FilePath)
    (job : Job) where
  Has : World → Type 0
  Has w = w.files job.tempdir_path ≡ some dir

  announced-Keeps :
      (out : Output) (job_id : Text) (r : Result World) (w : World)
      → Has w
      → Keeps job.tempdir_path (announced out job_id w r)
  unfolding Has
  announced-Keeps out job_id (err e) w h = λ _. h
  announced-Keeps out job_id (ok w') w h = λ failed. absurd (failed refl)

  answered-Keeps :
      (ids : List ℕ) (r : Result Text) (w : World)
      → Has w
      → Keeps job.tempdir_path (answered pd shell repr distr_path cwd job ids r w)
  unfolding Has
  answered-Keeps ids (err e) w h = λ _. h
  answered-Keeps ids (ok []) w h = λ failed. absurd (failed refl)
  answered-Keeps ids (ok (c ∷ job_id)) w h =
      announced-Keeps (record { item_count = length ids; text = [] }) (c ∷ job_id)
        (rename shell job.tempdir_path (cwd ++ (codes "worker_" ++ c ∷ job_id) ∷ []) w) w h

  stored-Has :
      (command : Text) (w : World) → Has w → Has (stored pd shell repr distr_path cwd job command w)
  unfolding Has
  stored-Has command w h =
      let below = put-below job.tempdir_path (codes "submit.sh") command w.files h in
      elim (Bool-cases job.options.is_dryrun) [ inl e ↦ rw e below | inr e ↦ rw e below ]

  submitting-Keeps :
      (ids : List ℕ) (w : World)
      → Has w
      → Keeps job.tempdir_path (submitting pd shell repr distr_path cwd job ids w)
  unfolding Has
  submitting-Keeps ids w h = answered-Keeps ids _ _ (stored-Has _ _ h)

  after_jobscript-Keeps :
      (ids : List ℕ) (r : Result Text) (w : World)
      → Has w
      → Keeps job.tempdir_path (after_jobscript pd shell repr distr_path cwd job ids r w)
  unfolding Has
  after_jobscript-Keeps ids (err e) w h = λ _. h
  after_jobscript-Keeps ids (ok text) w h = submitting-Keeps ids w h

  from_template-Keeps :
      (ids : List ℕ) (r : Result Text) (w : World)
      → Has w
      → Keeps job.tempdir_path (from_template pd shell repr distr_path cwd job ids r w)
  unfolding Has
  from_template-Keeps ids (err e) w h = λ _. h
  from_template-Keeps ids (ok template) w h =
      after_jobscript-Keeps ids _ _ (put-below job.tempdir_path (codes "jobscript.sh") _ w.files h)

  filtered-Keeps :
      (ids : List ℕ) (r : Result Text) (w : World)
      → Has w
      → Keeps job.tempdir_path (filtered pd shell repr distr_path cwd job ids r w)
  unfolding Has
  filtered-Keeps ids (err e) w h =
      λ _. put-below job.tempdir_path (codes "workerfile.txt") [] w.files h
  filtered-Keeps ids (ok workfile) w h =
      from_template-Keeps ids _ _ (put-below job.tempdir_path (codes "workerfile.txt") _ w.files h)

  told_items-Has :
      (ids : List ℕ) (w : World) → Has w → Has (told_items pd shell repr distr_path cwd job ids w)
  unfolding Has
  told_items-Has ids w h = elim (Bool-cases job.options.is_verbose) [
    | inl e ↦ rw e h
    | inr e ↦ rw e h
  ]

  after_report-Leaves :
      (r : Result (List ℕ)) (w : World)
      → Has w
      → ((after_report pd shell repr distr_path cwd job r w).1 ≢ exit 0) ⊎ (r ≡ ok [])
      → Has (after_report pd shell repr distr_path cwd job r w).0
  unfolding Has
  after_report-Leaves (err e) w h c = h
  after_report-Leaves (ok []) w h c = told_items-Has [] w h
  after_report-Leaves (ok (k ∷ ks)) w h (inl failed) =
      filtered-Keeps (k ∷ ks) _ _ (told_items-Has (k ∷ ks) w h) failed
  after_report-Leaves (ok (k ∷ ks)) w h (inr e) = cc

  -- Where no job is submitted, be it for an exception or because there is no work to do, the directory that
  -- has been made is still there at the end.
  pub run_job-Leaves :
      (w : World)
      → w.files job.tempdir_path ≡ some dir
      → ((run_job pd shell repr distr_path cwd job w).1 ≢ exit 0)
        ⊎ (items_to_do pd shell repr distr_path cwd job w ≡ ok [])
      → (run_job pd shell repr distr_path cwd job w).0.files job.tempdir_path ≡ some dir
  unfolding Has
  run_job-Leaves w h = after_report-Leaves (items_to_do pd shell repr distr_path cwd job w) w h
