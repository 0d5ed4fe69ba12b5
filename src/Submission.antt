-- ===== src/Submission.antt =====
-- Submitting a job: `submit_job` of scripts/worker/utils.py, the parsers of the scheduler's answer in
-- scripts/worker/slurm/submit_output_parser.py and scripts/worker/pbs_torque/submit_output_parser.py,
-- and what scripts/wsub.py.in and scripts/wresume.py.in do with the answer. The command
-- that `subprocess.run` runs is a parameter.
pub mod Answers
pub mod Directories
use worker_ng.Base.{
  zero, suc, ℤ, pos, negsuc, Bool, true, false, Option, none, some, List, [], ◌∷◌, ◌++◌,
  if◌then◌else◌,
}
use worker_ng.Text.{Text, codes, strip}
use worker_ng.Text.Numbers.{is_digit}
use worker_ng.Regex.{Regex, Match, group, plus, word, ◌⋯◌, is_word, re_search, get_group}
use worker_ng.Errors.{Result, ok, err, value_error, job_submission, ◌>>=◌}
use worker_ng.Workfile.{print}
use worker_ng.Artifacts.Paths.{FilePath}
use worker_ng.Artifacts.{FileSystem}
use worker_ng.Shlex

-- `Submitted batch job (?P<job_id>\d+) on cluster (?P<cluster>\w+)`
abbrev pub answer_expr : Regex
answer_expr =
    word (codes "Submitted batch job ")
    ⋯ group (codes "job_id") (plus is_digit)
    ⋯ word (codes " on cluster ")
    ⋯ group (codes "cluster") (plus is_word)

abbrev pub job_id_of : Text → Option Match → Result Text
job_id_of output_str (some m) = ok (get_group (codes "job_id") m.groups)
job_id_of output_str none =
    err (value_error (codes "can not parse submission output \"" ++ output_str ++ codes "\""))

-- Slurm's `parse`.
unfoldable pub parse_slurm : Text → Result Text
parse_slurm output_str = job_id_of output_str (re_search answer_expr output_str)

-- PBS torque's `parse`.
abbrev pub parse_pbs_torque : Text → Result Text
parse_pbs_torque output_str = ok output_str

-- A completed process.
pub record Completed : Type 0 where
  pub returncode : ℤ
  pub stdout : Text
  pub stderr : Text

-- What the scripts need of the system: the outcome of a command, and whether a directory has no entry, for
-- a rename to put another in its place.
pub record Shell : Type 0 where
  pub run : List Text → Completed
  pub is_empty : FileSystem → FilePath → Bool

abbrev pub succeeds : ℤ → Bool
succeeds (pos zero) = true
succeeds (pos (suc n)) = false
succeeds (negsuc n) = false

-- The file with the command, and the value that is returned or the exception. What a dry run prints
-- is that command too.
pub record Submission : Type 0 where
  pub file : Text
  pub outcome : Result Text

abbrev pub answer_of : Completed → Result Text
answer_of completed =
    if succeeds completed.returncode
    then ok (strip completed.stdout)
    else err (job_submission completed.stderr)

-- The new name of the directory of the job; an empty identification counts as none.
abbrev pub renamed : Option Text → Option Text
renamed none = none
renamed (some []) = none
renamed (some (c ∷ job_id)) = some (codes "worker_" ++ c ∷ job_id)

module _ (shell : Shell) where
  open shell use {run}

  unfoldable pub submit_job : Text → List Text → Text → Bool → Submission
  submit_job submit_command cl_options jobscript dryrun =
      let command = submit_command ∷ (cl_options ++ jobscript ∷ []) in
      record {
        file = print (Shlex.join command);
        outcome = if dryrun then ok [] else answer_of (run command);
      }

  -- `wsub`: the answer is parsed, unless this is a dry run. An exception is passed on; the script ends
  -- on it.
  unfoldable pub wsub_directory :
      (Text → Result Text) → Text → List Text → Text → Bool → Result (Option Text)
  wsub_directory parse submit_command cl_options jobscript dryrun = do
    output ← (submit_job submit_command cl_options jobscript dryrun).outcome
    job_id ← if dryrun then ok none else (do parsed ← parse output; ok (some parsed))
    ok (renamed job_id)

  -- `wresume`: the answer is taken for the identification of the job.
  unfoldable pub wresume_directory : Text → List Text → Text → Bool → Result (Option Text)
  wresume_directory submit_command cl_options jobscript dryrun = do
    job_id ← (submit_job submit_command cl_options jobscript dryrun).outcome
    ok (renamed (some job_id))
