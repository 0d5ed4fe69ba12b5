-- ===== src/Artifacts/Exits.antt =====
-- What `exit_on_error` prints, and the statuses with which the scripts end.
use worker_ng.Base.{
  ℕ, ◌≡◌, ◌<◌, refl, Option, List, [], ◌∷◌, ◌++◌, map, arith, append-nil, All, All-mono,
}
use worker_ng.Text.{Text, codes, text_eq}
use worker_ng.Dict.{Dict, lookup}
use worker_ng.Errors.{
  ok, WorkerError, config_error, batch_file_error, data_error, scheduler_option_error,
  submission_error, log_file_error, worker_dir_error,
}
use worker_ng.Format.{format, get_value}
use worker_ng.Format.Templates.{literal, field, template, render, escape, format-template}
use worker_ng.Artifacts.{World, complain, run_cleanup, exit, exit_on_error}

-- The errors with the texts that introduce their messages.
abbrev pub introductions : List (WorkerError × Text)
introductions =
    (config_error, codes "worker configuration issue, ")
    ∷ (batch_file_error, codes "batch file issue, ")
    ∷ (data_error, codes "data source issue, ")
    ∷ (scheduler_option_error, codes "invalid scheduler argument, ")
    ∷ (submission_error, codes "job submission issue, ")
    ∷ (log_file_error, codes "log file issue, ")
    ∷ (worker_dir_error, codes "worker directory issue, ")
    ∷ []

abbrev pub message_args : Text → Dict
message_args msg = (codes "msg", msg) ∷ []

-- The message is printed behind its introduction, the clean-up is run and the status returned.
abbrev pub Reports : WorkerError × Text → Type 0
Reports (error, introduction) =
    (cleanup : Option (World → World)) (msg : Text) (w : World)
    → exit_on_error error cleanup (message_args msg) w ≡ (
      run_cleanup cleanup (complain (codes "error: " ++ (introduction ++ msg)) w),
      exit error.status,
    )

IsIntroduced : WorkerError × Text → Type 0
IsIntroduced (error, introduction) =
    error.msg ≡ template (literal introduction ∷ field (codes "msg") ∷ [])

IsIntroduced-Reports : (e : WorkerError × Text) → IsIntroduced e → Reports e
unfolding IsIntroduced exit_on_error render get_value lookup text_eq
IsIntroduced-Reports (error, introduction) h cleanup msg w =
    let formatted : format (message_args msg) error.msg ≡ ok (introduction ++ msg) =
      rw
        (
          h,
          format-template (message_args msg) (literal introduction ∷ field (codes "msg") ∷ [])
              (tt, ((λ e. cc, (refl, (refl, (refl, tt)))), tt)),
          append-nil msg,
        )
        refl in
    rw formatted refl

abbrev pub Increasing : List ℕ → Type 0
Increasing [] = Unit
Increasing (x ∷ []) = Unit
Increasing (x ∷ y ∷ xs) = (x < y) × Increasing (y ∷ xs)

-- For each of the errors, with any message: `exit_on_error` prints the error's introduction and the
-- message on the error stream, then cleans up, and ends with the error's status; the statuses
-- differ from each other, in increasing order, and are numbers from 1 to 255.
pub exit_on_error-Reports :
    All Reports introductions
    × All (λ e. (0 < e.0.status) × (e.0.status < 256)) introductions
    × Increasing (map (λ e. e.0.status) introductions)
unfolding IsIntroduced template escape
exit_on_error-Reports = (
  All-mono introductions IsIntroduced-Reports
      (refl, (refl, (refl, (refl, (refl, (refl, (refl, tt))))))),
  omega arith,
  omega arith,
)
