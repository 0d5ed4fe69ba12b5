-- ===== src/Summary/Endings.antt =====
-- How the summary ends.
use worker_ng.Base.{
  ◌≡◌, ◌⊎◌, ◌↔◌, ◌++◌, refl, ap, inl, inr, Bool, true, false, ◌||◌, Option-cases, some_inj, Option,
  none, some, List, [], ◌∷◌, Bool-cases, All-In,
}
use worker_ng.Text.{Text, codes}
use worker_ng.Errors.{
  Result, ok, err, Exception, log_file_error, log_parse, file_not_found, not_a_directory, ◌>>=◌,
}
use worker_ng.Artifacts.{World, say, complain, exit, raised, Run, read_file}
use worker_ng.Artifacts.Exits.{introductions, Reports, exit_on_error-Reports}
use worker_ng.Options.Parser.{Pathlib}
use worker_ng.Logs.Report
use worker_ng.Logs.Report.{Pandas}
use worker_ng.Summary.{
  Options, Printing, Shown, then_show, when_shown, walltime_section, client_section, counts,
  counts_and_walltimes, clients, count_lines, ending_of, say_all, is_handled, report_lines,
  summarized, wsummarize, log_path,
}

log_file_error-Reports : Reports (log_file_error, codes "log file issue, ")
log_file_error-Reports =
    All-In Reports (log_file_error, codes "log file issue, ") introductions exit_on_error-Reports.0
      (inr (inr (inr (inr (inr (inl refl))))))

-- Printing lines leaves the files and the error stream.
abbrev pub Prints : World → World → Type 0
Prints w w' = (w'.files ≡ w.files) × (w'.stderr ≡ w.stderr)

say_all-Prints : (ls : List Text) (w : World) → Prints w (say_all ls w)
say_all-Prints [] w = (refl, refl)
say_all-Prints (l ∷ ls) w = say_all-Prints ls (say l w)

-- Where the exception of two parts comes from.
then_show-failure :
    (first next : Shown) (e : Exception)
    → (then_show first next).failure ≡ some e
    → (first.failure ≡ some e) ⊎ (next.failure ≡ some e)
then_show-failure first next e = elim (Option-cases first.failure) [
  | inl n ↦ rw n (λ h. inr h)
  | inr (x, f) ↦ rw f (λ h. inl h)
]

when_shown-failure :
    (b : Bool) (shown : Shown) (e : Exception)
    → (when_shown b shown).failure ≡ some e
    → (b ≡ true) × (shown.failure ≡ some e)
when_shown-failure true shown e h = (refl, h)
when_shown-failure false shown e h = absurd cc

module _ (pd : Pandas) (pr : Printing pd) (options : Options) where
  walltime_section-failure :
      (r : Result (List Text)) (e : Exception)
      → (walltime_section pd pr options r).failure ≡ some e
      → r ≡ err e
  walltime_section-failure (ok ls) e h = absurd cc
  walltime_section-failure (err x) e h = ap err (some_inj h)

  client_section-failure :
      (r : Result Text) (e : Exception)
      → (client_section pd pr options r).failure ≡ some e
      → r ≡ err e
  client_section-failure (ok table) e h = absurd cc
  client_section-failure (err x) e h = ap err (some_inj h)

  -- An exception of the statistics of a report, which the options ask for.
  abbrev pub IsRaised : pd.Frame → Exception → Type 0
  IsRaised report e =
      (((options.show_walltime_stats || options.show_all) ≡ true)
        × (pr.walltime_stats report ≡ err e))
      ⊎ (((options.show_client_stats || options.show_all) ≡ true)
          × (pr.client_stats report ≡ err e))

  count_lines-IsRaised :
      (report : pd.Frame) (e : Exception)
      → (count_lines pd pr options report).failure ≡ some e
      → IsRaised report e
  count_lines-IsRaised report e h =
      elim (then_show-failure (counts_and_walltimes pd pr options report)
        (clients pd pr options report) e h) [
          | inl f ↦
              elim (then_show-failure (counts pd pr options report)
                (when_shown (options.show_walltime_stats || options.show_all)
                  (walltime_section pd pr options (pr.walltime_stats report)))
                e f) [
                  | inl g ↦ absurd cc
                  | inr g ↦
                      let (on, x) = when_shown-failure _ _ e g in
                      inl (on, walltime_section-failure (pr.walltime_stats report) e x)
                ]
          | inr f ↦
              let (on, x) = when_shown-failure _ _ e f in
              inr (on, client_section-failure (pr.client_stats report) e x)
        ]

  report_lines-IsRaised :
      (report : pd.Frame) (e : Exception)
      → (report_lines pd pr options report).failure ≡ some e
      → IsRaised report e
  unfolding report_lines
  report_lines-IsRaised report e = elim (Bool-cases options.show_raw) [
    | inl raw ↦ rw raw (λ h. count_lines-IsRaised report e (when_shown-failure _ _ e h).1)
    | inr no_raw ↦ rw no_raw (count_lines-IsRaised report e)
  ]

-- A missing file or directory, or a log that is ill formed.
abbrev pub IsLogFileError : Exception → Type 0
IsLogFileError e =
    (e ≡ file_not_found) ⊎ (e ≡ not_a_directory) ⊎ ((msg : Text) × (e ≡ log_parse msg))

is_handled_iff : (e : Exception) → (is_handled e ≡ true) ↔ IsLogFileError e
is_handled_iff e = (
  is_handled-IsLogFileError e,
  elim [
    | inl f ↦ ap is_handled f
    | inr (inl f) ↦ ap is_handled f
    | inr (inr (msg, f)) ↦ ap is_handled f
  ],
)
  where
    is_handled-IsLogFileError : (x : Exception) → is_handled x ≡ true → IsLogFileError x
    is_handled-IsLogFileError file_not_found h = inl refl
    is_handled-IsLogFileError not_a_directory h = inr (inl refl)
    is_handled-IsLogFileError (log_parse msg) h = inr (inr (msg, refl))
    is_handled-IsLogFileError x h = absurd cc

module _ (pd : Pandas) (pr : Printing pd) (options : Options) (w : World) where
  -- How a run ends that changes no file: successfully, without a message of an error; with the message of
  -- an error of the log file, and nothing else; with another exception, as it was before; or with one of
  -- the statistics that are asked for, between the lines.
  abbrev pub IsSound : Run → Type 0
  IsSound run =
      (run.0.files ≡ w.files)
      × (((run.1 ≡ exit 0) × (run.0.stderr ≡ w.stderr))
          ⊎ ((e : Exception) × IsLogFileError e
              × (run ≡ (
                complain (codes "error: " ++ (codes "log file issue, " ++ pr.message e)) w,
                exit log_file_error.status,
              )))
          ⊎ ((e : Exception) × (run ≡ (w, raised e)) × ¬ IsLogFileError e)
          ⊎ ((e : Exception) × (report : pd.Frame) × (run.1 ≡ raised e)
              × (run.0.stderr ≡ w.stderr)
              × IsRaised pd pr options report e))

  summarized-IsSound : (r : Result (Option pd.Frame)) → IsSound (summarized pd pr options w r)
  summarized-IsSound (ok none) = (refl, inl (refl, refl))
  summarized-IsSound (ok (some report)) =
      let shown = report_lines pd pr options report in
      let (files, stderr) = say_all-Prints shown.lines w in
      (
        files,
        elim (Option-cases shown.failure) [
          | inl n ↦ inl (ap ending_of n, stderr)
          | inr (e, f) ↦ inr (
              inr (
                inr (
                  e,
                  report,
                  ap ending_of f,
                  stderr,
                  report_lines-IsRaised pd pr options report e f,
                )))
        ],
      )
  summarized-IsSound (err e) = elim (Bool-cases (is_handled e)) [
    | inl h ↦
        rw (h, log_file_error-Reports none (pr.message e) w)
          (refl, inr (inl (e, (is_handled_iff e).0 h, refl)))
    | inr h ↦ rw h (refl, inr (inr (inl (e, refl, λ f. let g = (is_handled_iff e).1 f in cc))))
  ]

  -- Whatever the options, the files and the log are, the summary changes no file, and it ends with
  -- status zero and nothing on the error stream; or for a missing file or directory or a log that is ill
  -- formed, with the message of that exception, the status of a log file error, and nothing else that is
  -- printed; or with another exception, and then nothing was printed; or with an exception that `pandas`
  -- raises for the walltime or the client statistics of a report, where these are asked for, behind the
  -- lines that were printed until then.
  pub wsummarize-IsSound : (pathlib : Pathlib) → IsSound (wsummarize pd pr options pathlib w)
  unfolding wsummarize
  wsummarize-IsSound pathlib = summarized-IsSound (do
    path ← log_path pathlib options.log options.dir
    content ← read_file w.files path
    Report.parse pd content)
