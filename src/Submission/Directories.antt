-- ===== src/Submission/Directories.antt =====
-- The directories of a submitted and of a resumed job under Slurm.
use mathlib.Core.Path.{subst}
use mathlib.Core.List.{append_cancel_left}
use worker_ng.Base.{
  ◌+◌, ◌<◌, ◌≤◌, ◌≡◌, ◌≢◌, refl, sym, ap, false, some, List, [], ◌∷◌, ◌++◌, length, length-append,
  arith,
}
use worker_ng.Text.{Text, codes}
use worker_ng.Errors.{ok}
use worker_ng.Submission.{
  Shell, parse_slurm, submit_job, renamed, wsub_directory, wresume_directory,
}
use worker_ng.Submission.Answers.{parse_slurm-answer}

length-middle :
    (before h xs rest after : Text)
    → length h + length xs ≤ length (before ++ ((h ++ (xs ++ rest)) ++ after))
length-middle before h xs rest after = omega (
  arith,
  length-append before ((h ++ (xs ++ rest)) ++ after),
  length-append (h ++ (xs ++ rest)) after,
  length-append h (xs ++ rest),
  length-append xs rest,
)

-- The answer is longer than the number that is read in it.
length-answer :
    (output job_id : Text) → parse_slurm output ≡ ok job_id → length job_id < length output
length-answer output job_id e =
    let (before, cluster, after, split, _, _) = parse_slurm-answer output job_id e in
    let longer : 20 + length job_id ≤ length output =
      subst (λ (o : Text). 20 + length job_id ≤ length o) (sym split)
        (length-middle before (codes "Submitted batch job ") job_id
          (codes " on cluster " ++ cluster) after) in
    omega (arith, longer)

renamed-nonempty :
    (job_id : Text) → job_id ≢ [] → renamed (some job_id) ≡ some (codes "worker_" ++ job_id)
renamed-nonempty [] h = absurd (h refl)
renamed-nonempty (c ∷ job_id) h = refl

module _ (shell : Shell) (submit_command : Text) (cl_options : List Text) (jobscript : Text)
    (output job_id : Text)
    (submitted : (submit_job shell submit_command cl_options jobscript false).outcome ≡ ok output)
    (parsed : parse_slurm output ≡ ok job_id) where
  -- Where Slurm accepts a job and its answer has a job number, `wsub` names the directory after that
  -- number, and `wresume` names it after the whole answer, which is another name.
  pub wsub_directory-wresume_directory :
      (wsub_directory shell parse_slurm submit_command cl_options jobscript false
        ≡ ok (some (codes "worker_" ++ job_id)))
      × (wresume_directory shell submit_command cl_options jobscript false
          ≡ ok (some (codes "worker_" ++ output)))
      × (codes "worker_" ++ job_id ≢ codes "worker_" ++ output)
  unfolding wsub_directory wresume_directory
  wsub_directory-wresume_directory =
      let (before, cluster, after, split, nonempty, _) = parse_slurm-answer output job_id parsed in
      let longer = length-answer output job_id parsed in
      let filled : output ≢ [] = λ e. omega (arith, longer, ap length e) in
      (
        rw (submitted, parsed) (ap ok (renamed-nonempty job_id nonempty)),
        rw submitted (ap ok (renamed-nonempty output filled)),
        λ e.
            omega (arith, longer, ap length (append_cancel_left (codes "worker_") job_id output e)),
      )
