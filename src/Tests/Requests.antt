-- ===== src/Tests/Requests.antt =====
-- Work files from the options of a job.
use worker_ng.Base.{◌≡◌, refl, none, some, [], ◌∷◌, map, if◌then◌else◌}
use worker_ng.Text.{Text, codes, split, text_eq}
use worker_ng.Errors.{ok, err, csv_error, file_not_found}
use worker_ng.Regex.{run, get_group}
use worker_ng.DataSources.Csv.{CsvModule, Files}
use worker_ng.DataSources.Aggregate
use worker_ng.DataSources.Aggregate.{Source, csv_source, range_source, collect, merge}
use worker_ng.DataSources.Aggregate.Rows.{rows_of, shortest, transposed}
use worker_ng.Workfile.Create.{create_workfile}
use worker_ng.Workfile.Sources.{
  Request, written, create_workfile_from, create_workfile_from-transposed,
}
use worker_ng.Tests.Workfiles.{script}

-- Every line is one field.
abbrev pub csv : CsvModule
csv = record {
  Dialect = Unit;
  sniff = λ text delimiters. ok tt;
  reader = λ dialect text. map (λ (line : Text). ok (line ∷ [])) (split b'\n' text);
}

abbrev files : Files
files name = if text_eq name (codes "data.csv") then ok (codes "x\n1\n2") else err file_not_found

-- A reader that raises behind its first row.
abbrev broken : Source
broken =
    csv_source
      (record { fieldnames = codes "x" ∷ []; reader = ok (codes "1" ∷ []) ∷ err csv_error ∷ [] })

raised : collect 3 (broken ∷ []) ≡ some (err csv_error)
unfolding collect
raised = refl

abbrev request : Request
request = record {
  files = some (codes "data.csv" ∷ []);
  array_request = some (codes "7-8");
  script = script;
}

abbrev missing : Request
missing = record { files = some (codes "none.csv" ∷ []); array_request = none; script = script }

abbrev table : Source
table = csv_source (record {
  fieldnames = codes "x" ∷ [];
  reader = ok (codes "1" ∷ []) ∷ ok (codes "2" ∷ []) ∷ [];
})

abbrev array : Source
array = range_source (record { fieldname = codes "id"; iter = 7 ∷ 8 ∷ [] })

opened :
    Aggregate.init csv files request.files 1024 request.array_request (codes "id")
    ≡ ok (table ∷ array ∷ [])
unfolding Aggregate.init split text_eq run get_group worker_ng.Text.Numbers.int
    worker_ng.Text.is_space worker_ng.DataSources.Range.range
opened = refl

create_workfile_from-transposed_example :
    create_workfile_from csv files (codes "#WORKER----") (codes "id") request
    ≡ some (
        written (
          create_workfile (codes "#WORKER----") script (
            map (merge []) (
              transposed
                (shortest (rows_of table) (map rows_of (array ∷ [])))
                (map rows_of (table ∷ array ∷ []))))))
create_workfile_from-transposed_example =
    create_workfile_from-transposed csv files (codes "#WORKER----") (codes "id") request table
      (array ∷ []) opened ((tt, (tt, tt)), (tt, tt))

not_there :
    create_workfile_from csv files (codes "#WORKER----") (codes "id") missing
    ≡ some (err file_not_found)
unfolding create_workfile_from text_eq Aggregate.init
not_there = refl
