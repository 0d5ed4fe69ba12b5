-- ===== src/Summary/Counts.antt =====
-- The counts of the summary.
use mathlib.Core.List.{Perm}
use mathlib.Core.Logic.{∥∥₁_elim}
use native.Mathlib.Nat.{ℕ_set}
use mathlib.Core.List.{Permᴰ}
use worker_ng.Base.{
  ℕ, ◌+◌, ◌≡◌, refl, ◌∙◌, false, none, some, List, ◌∷◌, ◌++◌, length, length-map, length-append,
  arith,
}
use worker_ng.Text.{Text, codes}
use worker_ng.Text.Numbers.{str}
use worker_ng.Errors.{ok}
use worker_ng.Artifacts.{World, say, file, exit, read_file}
use worker_ng.Options.Parser.{Pathlib}
use worker_ng.Logs.Parser
use worker_ng.Logs.Parser.{Items, WorkItem}
use worker_ng.Logs.Report
use worker_ng.Logs.Report.{Pandas, report}
use worker_ng.Logs.Report.Partition.{report_partition}
use worker_ng.Summary.{Options, Printing, report_lines, wsummarize}

length-PermD : {A : Type 0} {xs ys : List A} → Permᴰ xs ys → length xs ≡ length ys
length-PermD Permᴰ.nil = refl
length-PermD (Permᴰ.cons e p) = omega (arith, length-PermD p)
length-PermD (Permᴰ.swap e f) = refl
length-PermD (Permᴰ.trans p q) = length-PermD p ∙ length-PermD q

length-Perm : {A : Type 0} {xs ys : List A} → Perm xs ys → length xs ≡ length ys
length-Perm {xs = xs} {ys} p = ∥∥₁_elim p (ℕ_set (length xs) (length ys)) length-PermD

-- With `--log` and no other option.
abbrev pub plain_options : Text → Options
plain_options name = record {
  log = some name;
  dir = none;
  show_raw = false;
  show_failed = false;
  show_incomplete = false;
  show_walltime_stats = false;
  show_client_stats = false;
  show_all = false;
}

abbrev pub say_counts : ℕ → ℕ → ℕ → World → World
say_counts a b c w =
    say (codes "incomplete: " ++ str c)
      (say (codes "failure: " ++ str b) (say (codes "success: " ++ str a) w))

-- For a log that parses and has started items, without further options, the summary prints three numbers,
-- of the successes, the failures and the incomplete items, and ends successfully; the numbers add up to
-- the number of items in the log.
pub wsummarize-counts :
    (pd : Pandas) (pr : Printing pd) (pathlib : Pathlib) (w : World) (d : ℕ) (name content : Text)
    (items : Items)
    → w.files (pathlib.place (d ∷ name)) ≡ some (file content)
    → Parser.parse content ≡ ok (some items)
    → (a : ℕ) × (b : ℕ) × (c : ℕ) × (a + b + c ≡ length items)
      × (a ≡ length (Report.successes pd (report pd items)))
      × (b ≡ length (Report.failures pd (report pd items)))
      × (c ≡ length (Report.incompletes pd (report pd items)))
      × (wsummarize pd pr (plain_options (d ∷ name)) pathlib w ≡ (say_counts a b c w, exit 0))
unfolding wsummarize read_file Report.parse report_lines
wsummarize-counts pd pr pathlib w d name content items there parsed =
    let ss = Report.successes pd (report pd items) in
    let fs = Report.failures pd (report pd items) in
    let is = Report.incompletes pd (report pd items) in
    let all : length (ss ++ (fs ++ is)) ≡ length items =
      length-Perm (report_partition pd content items parsed)
      ∙ length-map (λ (i : ℕ × WorkItem). i.0) items in
    (
      length ss,
      length fs,
      length is,
      omega (arith, all, length-append ss (fs ++ is), length-append fs is),
      refl,
      refl,
      refl,
      rw (there, parsed) refl,
    )
