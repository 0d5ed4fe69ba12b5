-- ===== src/Resume.antt =====
-- The part of `main` of scripts/wresume.py.in that decides which work items to run again and writes
-- their work file.
pub mod Chosen
pub mod Job
pub mod Script
use worker_ng.Base.{ℕ, Bool, Option, none, some, List, [], ◌∷◌, ◌++◌, if◌then◌else◌}
use worker_ng.Text.{Text, codes}
use worker_ng.Errors.{Result, ok, err, attribute_error, ◌>>=◌}
use worker_ng.Logs.Report
use worker_ng.Logs.Report.{Pandas}
use worker_ng.Workfile.{Output, filter_workfile}

-- The separator that the script passes on.
abbrev pub separator : Text
separator = codes "#WORKER----"

module _ (pd : Pandas) where
  open pd use {Frame}

  -- `report.incompletes`, extended by `report.failures` on request.
  unfoldable pub work_ids : Bool → Frame → List ℕ
  work_ids redo df = Report.incompletes pd df ++ (if redo then Report.failures pd df else [])

  -- `None` has no attribute `incompletes`.
  abbrev pub some_report : Option Frame → Result Frame
  some_report none = err attribute_error
  some_report (some df) = ok df

  -- Without work there is no file: the script ends.
  abbrev pub write_chosen : List ℕ → Text → Option Output
  write_chosen [] workfile = none
  write_chosen (k ∷ ks) workfile = some (filter_workfile separator (k ∷ ks) workfile)

  -- From the server's log and the work file of the previous job.
  unfoldable pub resume_workfile : Bool → Text → Text → Result (Option Output)
  resume_workfile redo log workfile = do
    parsed ← Report.parse pd log
    df ← some_report parsed
    ok (write_chosen (work_ids redo df) workfile)
