-- ===== src/Tests/Logs.antt =====
-- Lines of a server log, and the report on a log of two work items.
use worker_ng.Base.{◌≡◌, ◌↔◌, refl, false, none, some, [], ◌∷◌, ◌++◌, map, pos, negsuc, In}
use mathlib.Core.List.{Perm}
use worker_ng.Text.{Text, codes, newline, read_lines, is_space, text_eq}
use worker_ng.Regex.{run, get_group}
use worker_ng.Errors.{ok}
use worker_ng.Logs.Lines.{is_log_line, event_of, started, done}
use worker_ng.Logs.Clock.{parse_time}
use worker_ng.Logs.Parser
use worker_ng.Logs.Parser.{Items, find_item, parse_loop, start, State, update_item}
use worker_ng.Logs.Parser.Recorded.{AreRecorded, parse-AreRecorded}
use worker_ng.Logs.Parser.Statuses.{
  last_status, was_started, status_in, is_found, parse-last_status,
}
use worker_ng.Logs.Parser.Outcome.{Outcome, parse-Outcome}
use worker_ng.Logs.Report.{report, successes, failures, incompletes}
use worker_ng.Logs.Report.Partition.{report_partition}
use worker_ng.Logs.Report.Verdicts.{verdict, succeeded, failed, unfinished, report_verdicts}
use worker_ng.Tests.Frames.{frames}

abbrev started_line : Text
started_line = codes "2021-09-30 14:47:00.783300 [info]: workitem 1 started : ee98-d0"

abbrev done_line : Text
done_line = codes "2021-09-30 14:47:01.783300 [info]: workitem 1 done : 0"

abbrev second_line : Text
second_line = codes "2021-09-30 14:47:02.0 [info]: workitem 2 started : ee98-d0"

started_line-event :
    event_of started_line ≡ started 1 (codes "ee98-d0") (codes "2021-09-30 14:47:00.783300")
unfolding event_of run is_space text_eq get_group
started_line-event = refl

killed-event :
    event_of (codes "2021-09-30 14:47:01.783300 [info]: workitem 12 done : -1")
    ≡ done 12 (negsuc 0) (codes "2021-09-30 14:47:01.783300")
unfolding event_of run is_space text_eq get_group
killed-event = refl

not_a_log_line : is_log_line (codes "2021-09-30 14:47:01.7 info: x") ≡ false
unfolding is_log_line run is_space
not_a_log_line = refl

a_time :
    parse_time (codes "2021-09-30 14:47:00.78") ≡ ok (record { microseconds = 63768610020780000 })
unfolding parse_time run is_space text_eq get_group
a_time = refl

abbrev pub log : Text
log = started_line ++ newline ∷ (done_line ++ newline ∷ (second_line ++ newline ∷ []))

abbrev pub log_items : Items
log_items =
    (
      1,
      record {
        item_id = some 1;
        client_id = some (codes "ee98-d0");
        start_time = some (record { microseconds = 63768610020783300 });
        duration = some (pos 1000000);
        status = some (pos 0);
      },
    )
    ∷ (
      2,
      record {
        item_id = some 2;
        client_id = some (codes "ee98-d0");
        start_time = some (record { microseconds = 63768610022000000 });
        duration = none;
        status = none;
      },
    )
    ∷ []

pub log-parsed : Parser.parse log ≡ ok (some log_items)
unfolding Parser.parse read_lines event_of is_log_line parse_time run is_space text_eq get_group
    find_item update_item
log-parsed = refl

abbrev final : State
final = record { workitems = log_items; nr_lines = 3; nr_log_lines = 3 }

log-looped : parse_loop start (read_lines log) ≡ ok final
unfolding parse_loop read_lines event_of is_log_line parse_time run is_space text_eq get_group
    find_item update_item
log-looped = refl

parse-AreRecorded_example : AreRecorded log_items
parse-AreRecorded_example = parse-AreRecorded log log_items log-parsed

parse-Outcome_example : Outcome (read_lines log) final (Parser.parse log)
parse-Outcome_example = parse-Outcome log final log-looped

parse-last_status_example :
    (status_in (find_item 1 log_items) ≡ last_status 1 none (map event_of (read_lines log)))
    × (is_found (find_item 1 log_items) ≡ was_started 1 false (map event_of (read_lines log)))
parse-last_status_example = parse-last_status 1 log log_items log-parsed

done_line-event :
    event_of (done_line ++ newline ∷ []) ≡ done 1 (pos 0) (codes "2021-09-30 14:47:01.783300")
unfolding event_of run is_space text_eq get_group
done_line-event = refl

done_line-time :
    parse_time (codes "2021-09-30 14:47:01.783300")
    ≡ ok (record { microseconds = 63768610021783300 })
unfolding parse_time run is_space text_eq get_group
done_line-time = refl

done_line-read : read_lines (done_line ++ newline ∷ []) ≡ (done_line ++ newline ∷ []) ∷ []
unfolding read_lines
done_line-read = refl

nothing-looped : parse_loop start [] ≡ ok start
unfolding parse_loop
nothing-looped = refl

report_partition_example :
    Perm
      (successes frames (report frames log_items)
        ++ (failures frames (report frames log_items)
            ++ incompletes frames (report frames log_items)))
      (map (λ i. i.0) log_items)
report_partition_example = report_partition frames log log_items log-parsed

report_verdicts_example :
    (In 2 (successes frames (report frames log_items)) ↔ (verdict 2 log ≡ succeeded))
    × (In 2 (failures frames (report frames log_items)) ↔ (verdict 2 log ≡ failed))
    × (In 2 (incompletes frames (report frames log_items)) ↔ (verdict 2 log ≡ unfinished))
report_verdicts_example = report_verdicts frames 2 log log_items log-parsed
