-- ===== src/Tests/Workfiles.antt =====
-- A job of two rows: its work file, and the resumed work file.
use worker_ng.Base.{
  ℕ, ◌≡◌, ◌≢◌, refl, some, List, [], ◌∷◌, ◌++◌, map, All, length, init, last, ◌==◌, arith,
}
use worker_ng.Text.{
  Text, codes, newline, carriage_return, text_eq, strip, lines, read_lines, universal_newlines,
}
use worker_ng.Text.Lines.{Lacks}
use worker_ng.Workfile.{Output, parse, filter_workfile, print}
use worker_ng.Workfile.Create.{Row, work_item, create_workfile}
use worker_ng.Workfile.Joined.{IsSeparator, HasNoSeparator}
use worker_ng.Workfile.Parsing.{parse-create_workfile}
use worker_ng.Workfile.Filtering.{selected}
use worker_ng.Workfile.Resumed.{parse-filter_workfile}
use worker_ng.Resume.{separator}
use worker_ng.Tests.Checks.{All-none_of}

abbrev pub script : Text
script = codes "work $x\n"

abbrev pub row : Row
row = (codes "x", codes "1") ∷ []

abbrev pub other_row : Row
other_row = (codes "x", codes "2") ∷ []

abbrev pub job_file : Text
job_file = codes "export x='1'\n\nwork $x\n\n#WORKER----\nexport x='2'\n\nwork $x\n\n"

abbrev pub job : Output
job = record { item_count = 2; text = job_file }

pub job-created : create_workfile separator script (row ∷ other_row ∷ []) ≡ some job
unfolding create_workfile
job-created = refl

pub separator-IsSeparator : IsSeparator separator
unfolding text_eq strip worker_ng.Text.is_space
separator-IsSeparator = record {
  one_line = All-none_of (λ d. d == newline) separator refl;
  recognised = refl;
}

pub items-HasNoSeparator :
    All (HasNoSeparator separator) (map (work_item script) (row ∷ other_row ∷ []))
unfolding work_item lines text_eq strip worker_ng.Text.is_space
items-HasNoSeparator = (
  All-none_of (λ l. text_eq (strip l) separator) (lines (work_item script row)) refl,
  (All-none_of (λ l. text_eq (strip l) separator) (lines (work_item script other_row)) refl, tt),
)

pub job-Lacks : Lacks carriage_return job_file
job-Lacks = All-none_of (λ d. d == carriage_return) job_file refl

parse-create_workfile_example :
    (parse separator job.text ≡ record {
      yields = init (map (work_item script) (row ∷ other_row ∷ []));
      returned = last (work_item script row) (map (work_item script) (other_row ∷ []));
    })
    × (job.item_count ≡ length (row ∷ other_row ∷ []))
parse-create_workfile_example =
    parse-create_workfile separator script row (other_row ∷ []) {out = job} job-created
      separator-IsSeparator items-HasNoSeparator job-Lacks

-- The last item alone: nothing is left of it.
last_item_lost : (filter_workfile separator (2 ∷ []) job_file).text ≡ []
unfolding filter_workfile parse lines text_eq strip worker_ng.Text.is_space read_lines
    worker_ng.Base.elem
last_item_lost = refl

resumed-Lacks : Lacks carriage_return (filter_workfile separator (1 ∷ []) job.text).text
unfolding filter_workfile parse lines text_eq strip worker_ng.Text.is_space read_lines
    worker_ng.Base.elem
resumed-Lacks =
    All-none_of (λ d. d == carriage_return) (filter_workfile separator (1 ∷ []) job.text).text refl

parse-filter_workfile_example :
    (parse separator (filter_workfile separator (1 ∷ []) job.text).text).yields
    ≡ init (map print (selected (1 ∷ []) 0 (init (map (work_item script) (row ∷ other_row ∷ [])))))
parse-filter_workfile_example =
    parse-filter_workfile separator script row (other_row ∷ []) {out = job} (1 ∷ []) job-created
      (cc) separator-IsSeparator items-HasNoSeparator job-Lacks resumed-Lacks
