-- ===== src/Tests/Summaries.antt =====
-- Summaries of a log.
use worker_ng.Base.{ℕ, ◌+◌, ◌≡◌, refl, true, none, some, [], ◌∷◌, length}
use worker_ng.Text.{codes, text_eq}
use worker_ng.Text.Numbers.{str}
use worker_ng.Errors.{ok, err, attribute_error, log_file_error}
use worker_ng.Artifacts.Paths.{path_eq}
use worker_ng.Artifacts.{Entry, file, World, put, exit}
use worker_ng.Options.Parser.{Pathlib}
use worker_ng.Logs.Report
use worker_ng.Logs.Report.{report}
use worker_ng.Summary.{Options, Printing, sep, stopped, report_lines, wsummarize}
use worker_ng.Summary.Counts.{plain_options, say_counts, wsummarize-counts}
use worker_ng.Summary.Endings.{IsSound, wsummarize-IsSound}
use worker_ng.Tests.Frames.{frames, numbers}
use worker_ng.Tests.Logs.{log, log_items, log-parsed}

abbrev printing : Printing frames
printing = record {
  raw = λ df. codes "raw";
  walltime_stats = λ df. err attribute_error;
  client_stats = λ df. ok (codes "clients");
  message = λ e. codes "not found";
}

abbrev pathlib : Pathlib
pathlib = record { place = λ name. name ∷ []; shown = λ name. name }

abbrev world : World
world = record {
  files = put (codes "server.log" ∷ []) (file log) (λ p. none);
  stdout = [];
  stderr = [];
}

log-there : world.files (codes "server.log" ∷ []) ≡ some (file log)
unfolding put path_eq text_eq
log-there = refl

wsummarize-counts_example :
    (a : ℕ) × (b : ℕ) × (c : ℕ) × (a + b + c ≡ length log_items)
    × (a ≡ length (Report.successes frames (report frames log_items)))
    × (b ≡ length (Report.failures frames (report frames log_items)))
    × (c ≡ length (Report.incompletes frames (report frames log_items)))
    × (wsummarize frames printing (plain_options (codes "server.log")) pathlib world
        ≡ (say_counts a b c world, exit 0))
wsummarize-counts_example =
    wsummarize-counts frames printing pathlib world b's' (codes "erver.log") log log_items log-there
      log-parsed

wsummarize-IsSound_example :
    IsSound frames printing
      (plain_options (codes "other.log"))
      world
      (wsummarize frames printing (plain_options (codes "other.log")) pathlib world)
wsummarize-IsSound_example =
    wsummarize-IsSound frames printing (plain_options (codes "other.log")) world pathlib

abbrev walltime_options : Options
walltime_options = record (plain_options (codes "server.log")) { show_walltime_stats = true }

-- Without `iteritems`, the statistics end the script behind their heading.
no_iteritems :
    report_lines frames printing walltime_options (report frames log_items)
    ≡ stopped
        (codes "success: 1"
          ∷ codes "failure: 0"
          ∷ codes "incomplete: 1"
          ∷ sep
          ∷ codes "workitem walltime statistics:"
          ∷ [])
        attribute_error
unfolding report_lines Report.successes Report.failures Report.incompletes report numbers str
    worker_ng.Base.sorted worker_ng.Logs.Report.Columns.convert_to_dict
    worker_ng.Logs.Report.Columns.rows_of worker_ng.Base.insert_sorted
no_iteritems = refl

-- A log that is not there.
no_log :
    (wsummarize frames printing (plain_options (codes "other.log")) pathlib world).1
    ≡ exit log_file_error.status
unfolding wsummarize worker_ng.Artifacts.read_file worker_ng.Artifacts.exit_on_error put path_eq
    text_eq worker_ng.Format.format worker_ng.Dict.lookup worker_ng.Artifacts.missing
no_log = refl
