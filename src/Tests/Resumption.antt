-- ===== src/Tests/Resumption.antt =====
-- Resuming the job of two rows, of which the second did not finish.
use worker_ng.Base.{ℕ, ◌≡◌, ◌↔◌, ◌⊎◌, refl, true, false, none, some, [], ◌∷◌, In, map}
use worker_ng.Logs.Parser.Statuses.{was_started}
use worker_ng.Text.{Text, codes, read_lines, is_space, text_eq}
use worker_ng.Regex.{run, get_group}
use worker_ng.Errors.{ok}
use worker_ng.Logs.Lines.{event_of, is_log_line}
use worker_ng.Logs.Parser
use worker_ng.Logs.Report.{report}
use worker_ng.Logs.Report.Verdicts.{verdict, failed, unfinished}
use worker_ng.Resume.{work_ids, resume_workfile}
use worker_ng.Resume.Chosen.{work_ids_iff, resume_workfile-drops_last}
use worker_ng.Tests.Frames.{frames, numbers}
use worker_ng.Tests.Logs.{log, log_items, log-parsed}
use worker_ng.Tests.Workfiles.{
  script, row, other_row, job, job-created, separator-IsSeparator, items-HasNoSeparator, job-Lacks,
}

work_ids_iff_example :
    (In 2 (work_ids frames true (report frames log_items))
      ↔ ((verdict 2 log ≡ unfinished) ⊎ ((true ≡ true) × (verdict 2 log ≡ failed))))
    × ((was_started 2 false (map event_of (read_lines log)) ≡ true)
        ⊎ ¬ In 2 (work_ids frames true (report frames log_items)))
work_ids_iff_example = work_ids_iff frames true 2 log log_items log-parsed

second_left : work_ids frames false (report frames log_items) ≡ 2 ∷ []
unfolding work_ids worker_ng.Logs.Report.incompletes report worker_ng.Base.sorted numbers
    worker_ng.Logs.Report.Columns.convert_to_dict worker_ng.Logs.Report.Columns.rows_of
second_left = refl

resume_workfile-drops_last_example :
    resume_workfile frames false log job.text ≡ ok (some (record { item_count = 0; text = [] }))
resume_workfile-drops_last_example =
    resume_workfile-drops_last frames false log log_items script row (other_row ∷ []) {out = job}
      log-parsed job-created separator-IsSeparator items-HasNoSeparator job-Lacks second_left

abbrev quiet_log : Text
quiet_log = codes "2021-09-30 14:46:59.785764 [info]: server ID 84cd\n"

quiet_log-parsed : Parser.parse quiet_log ≡ ok none
unfolding Parser.parse read_lines event_of is_log_line run is_space text_eq get_group
quiet_log-parsed = refl
