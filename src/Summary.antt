-- ===== src/Summary.antt =====
-- The script scripts/wsummarize.py, from its options to what it prints and how it ends. What `pandas`
-- prints and the messages of Python's exceptions are parameters.
pub mod Counts
pub mod Endings
use worker_ng.Base.{
  ℕ, zero, suc, Bool, true, false, not, ◌&&◌, ◌||◌, Option, none, some, List, [], ◌∷◌, ◌++◌, map,
  length, if◌then◌else◌,
}
use worker_ng.Text.{Text, codes}
use worker_ng.Text.Numbers.{str}
use worker_ng.Errors.{
  Result, ok, err, Exception, log_parse, type_error, file_not_found, not_a_directory,
  log_file_error, ◌>>=◌,
}
use worker_ng.Artifacts.Paths.{FilePath}
use worker_ng.Artifacts.{
  FileSystem, World, say, Ending, exit, raised, Run, exit_on_error, read_file,
}
use worker_ng.Artifacts.Exits.{message_args}
use worker_ng.Options.CommandLine.{join}
use worker_ng.Options.Parser.{Pathlib}
use worker_ng.Logs.Report
use worker_ng.Logs.Report.{Pandas}

pub record Options : Type 0 where
  pub log : Option Text
  pub dir : Option Text
  pub show_raw : Bool
  pub show_failed : Bool
  pub show_incomplete : Bool
  pub show_walltime_stats : Bool
  pub show_client_stats : Bool
  pub show_all : Bool

-- What is printed for a frame, with the exceptions of its statistics, and for an exception.
pub record Printing (pd : Pandas) : Type 0 where
  pub raw : pd.Frame → Text
  -- One line for each quantity of the statistics, or what `iteritems` raises where a series has no such
  -- method.
  pub walltime_stats : pd.Frame → Result (List Text)
  pub client_stats : pd.Frame → Result Text
  pub message : Exception → Text

abbrev pub dashes : ℕ → Text
dashes zero = []
dashes (suc n) = b'-' ∷ dashes n

abbrev pub sep : Text
sep = dashes 72

abbrev pub when {ℓ} : {A : Type ℓ} → Bool → List A → List A
when b xs = if b then xs else []

abbrev pub work_ids_line : List ℕ → Text
work_ids_line ids = codes "\t" ++ join (codes " ") (map str ids)

abbrev pub say_all : List Text → World → World
say_all [] w = w
say_all (line ∷ rest) w = say_all rest (say line w)

-- The lines that are printed, and the exception that comes behind them, if one does.
pub record Shown : Type 0 where
  pub lines : List Text
  pub failure : Option Exception

abbrev pub printed : List Text → Shown
printed lines = record { lines = lines; failure = none }

abbrev pub stopped : List Text → Exception → Shown
stopped lines e = record { lines = lines; failure = some e }

abbrev pub when_shown : Bool → Shown → Shown
when_shown b shown = if b then shown else printed []

-- What follows is reached only without an exception.
abbrev pub followed : List Text → Option Exception → Shown → Shown
followed lines none next = record { lines = lines ++ next.lines; failure = next.failure }
followed lines (some e) next = stopped lines e

abbrev pub then_show : Shown → Shown → Shown
then_show first next = followed first.lines first.failure next

abbrev pub ending_of : Option Exception → Ending
ending_of none = exit 0
ending_of (some e) = raised e

-- The errors that the script handles.
abbrev pub is_handled : Exception → Bool
is_handled file_not_found = true
is_handled not_a_directory = true
is_handled (log_parse msg) = true
is_handled e = false

-- The log file: an empty name counts as none; a directory that is not given is refused by `Path`.
abbrev pub path_in : Pathlib → Option Text → Result FilePath
path_in pathlib none = err type_error
path_in pathlib (some dir) = ok (pathlib.place dir ++ codes "server.log" ∷ [])

abbrev pub log_path : Pathlib → Option Text → Option Text → Result FilePath
log_path pathlib none dir = path_in pathlib dir
log_path pathlib (some []) dir = path_in pathlib dir
log_path pathlib (some (c ∷ name)) dir = ok (pathlib.place (c ∷ name))

module _ (pd : Pandas) (pr : Printing pd) (options : Options) where
  open pd use {Frame}

  abbrev pub walltime_section : Result (List Text) → Shown
  walltime_section (ok quantities) =
      printed (sep ∷ codes "workitem walltime statistics:" ∷ quantities)
  walltime_section (err e) = stopped (sep ∷ codes "workitem walltime statistics:" ∷ []) e

  abbrev pub client_section : Result Text → Shown
  client_section (ok table) = printed (sep ∷ table ∷ [])
  client_section (err e) = stopped (sep ∷ []) e

  abbrev pub counts : Frame → Shown
  counts report = printed (
      (codes "success: " ++ str (length (Report.successes pd report)))
        ∷ (codes "failure: " ++ str (length (Report.failures pd report)))
        ∷ when (options.show_failed || options.show_all)
            (work_ids_line (Report.failures pd report) ∷ [])
      ++ (codes "incomplete: " ++ str (length (Report.incompletes pd report)))
        ∷ when (options.show_incomplete || options.show_all)
            (work_ids_line (Report.incompletes pd report) ∷ []))

  abbrev pub counts_and_walltimes : Frame → Shown
  counts_and_walltimes report = then_show (counts report) (
      when_shown (options.show_walltime_stats || options.show_all)
        (walltime_section (pr.walltime_stats report)))

  abbrev pub clients : Frame → Shown
  clients report =
      when_shown (options.show_client_stats || options.show_all)
        (client_section (pr.client_stats report))

  -- The lines behind the raw data.
  abbrev pub count_lines : Frame → Shown
  count_lines report = then_show (counts_and_walltimes report) (clients report)

  -- With the raw data the script ends there, unless everything is to be shown.
  unfoldable pub report_lines : Frame → Shown
  report_lines report =
      if options.show_raw
      then then_show (printed (pr.raw report ∷ when options.show_all (sep ∷ [])))
          (when_shown options.show_all (count_lines report))
      else count_lines report

  abbrev pub summarized : World → Result (Option Frame) → Run
  summarized w (ok none) = (say (codes "no work done") w, exit 0)
  summarized w (ok (some report)) =
      let shown = report_lines report in (say_all shown.lines w, ending_of shown.failure)
  summarized w (err e) =
      if is_handled e
      then exit_on_error log_file_error none (message_args (pr.message e)) w
      else (w, raised e)

  unfoldable pub wsummarize : Pathlib → World → Run
  unfolding Report.parse read_file exit_on_error report_lines
  wsummarize pathlib w = summarized w (do
    path ← log_path pathlib options.log options.dir
    content ← read_file w.files path
    Report.parse pd content)
