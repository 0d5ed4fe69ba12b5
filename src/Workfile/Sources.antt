-- ===== src/Workfile/Sources.antt =====
-- `create_workfile` of scripts/worker/utils.py from the options of a job to the file.
use worker_ng.Base.{
  ℕ, suc, ◌<◌, ◌≤◌, ◌≡◌, refl, sym, Option, none, some, List, [], ◌∷◌, ◌++◌, map, length,
  length-map, inl, inr, arith, All,
}
use worker_ng.Text.{Text, rstrip}
use worker_ng.Text.Numbers.{str}
use worker_ng.Dict.{Dict}
use worker_ng.Errors.{Result, ok, ok_inj, err, stop_iteration, >>=-eq-ok, Result-cases}
use worker_ng.DataSources.Csv.{CsvModule, Files, zip_dict}
use worker_ng.DataSources.Aggregate.{
  Source, csv_source, column_source, range_source, remaining, merge, collect, given, some_source,
  open_sources, range_sources,
}
use worker_ng.DataSources.Aggregate
use worker_ng.DataSources.Aggregate.Rows.{
  IsClean, good_rows, rows_of, shortest, transposed, shortest-le, collect_rows,
}
use worker_ng.DataSources.Aggregate.Rounds.{collect-Ends}
use worker_ng.Workfile.{Output}
use worker_ng.Workfile.Create.{create_workfile}

-- What the function reads of the options.
pub record Request : Type 0 where
  pub files : Option (List Text)
  pub array_request : Option Text
  pub script : Text

abbrev pub written : Option Output → Result Output
written none = err stop_iteration
written (some out) = ok out

abbrev pub file_of : Text → Text → Option (Result (List Dict)) → Option (Result Output)
file_of sep script none = none
file_of sep script (some (err e)) = some (err e)
file_of sep script (some (ok rows)) = some (written (create_workfile sep script rows))

-- Rounds enough for the loop over the rows.
abbrev pub fuel_for : List Source → ℕ
fuel_for [] = 1
fuel_for (s ∷ ss) = suc (remaining s)

abbrev pub from_sources : Text → Text → Result (List Source) → Option (Result Output)
from_sources sep script (err e) = some (err e)
from_sources sep script (ok sources) = file_of sep script (collect (fuel_for sources) sources)

-- The number of work items and the file, or the exception of the sources; `none` is out of fuel.
unfoldable pub create_workfile_from :
    CsvModule → Files → Text → Text → Request → Option (Result Output)
unfolding create_workfile
create_workfile_from csv files sep array_var request =
    from_sources sep request.script
      (Aggregate.init csv files request.files 1024 request.array_request array_var)

file_of-some :
    (sep script : Text) (rows : Result (List Dict))
    → (out : Result Output) × (file_of sep script (some rows) ≡ some out)
file_of-some sep script (ok rows) = (written (create_workfile sep script rows), refl)
file_of-some sep script (err x) = (err x, refl)

length-good_rows : (reader : List (Result (List Text))) → length (good_rows reader) ≤ length reader
length-good_rows [] = omega arith
length-good_rows (ok row ∷ rest) = omega (arith, length-good_rows rest)
length-good_rows (err e ∷ rest) = omega arith

rows_of-le-remaining : (s : Source) → length (rows_of s) ≤ remaining s
rows_of-le-remaining (csv_source s) =
    omega
      (arith, length-map (zip_dict [] s.fieldnames) (good_rows s.reader), length-good_rows s.reader)
rows_of-le-remaining (column_source s) =
    omega (arith, length-map {B = Dict} (λ (line : Text). (s.fieldname, rstrip line) ∷ []) s.file)
rows_of-le-remaining (range_source s) =
    omega (arith, length-map {B = Dict} (λ (n : ℕ). (s.fieldname, str n) ∷ []) s.iter)

-- The constructor never leaves `zip` without a source.
some_source-nonempty :
    (xs : List Source) {sources : List Source}
    → some_source xs ≡ ok sources
    → (s : Source) × (ss : List Source) × (sources ≡ s ∷ ss)
some_source-nonempty [] e = cc
some_source-nonempty (s ∷ ss) e = (s, ss, sym (ok_inj e))

module _ (csv : CsvModule) (files : Files) where
  init-ne-nil :
      (names : Option (List Text)) (n : ℕ) (array : Option Text) (var : Text)
      {sources : List Source}
      → Aggregate.init csv files names n array var ≡ ok sources
      → (s : Source) × (ss : List Source) × (sources ≡ s ∷ ss)
  unfolding Aggregate.init
  init-ne-nil names n array var e =
      let (opened, _, f) = >>=-eq-ok (open_sources csv files (given names) n) _ e in
      let (ranges, _, g) = >>=-eq-ok (range_sources csv files array var) _ f in
      some_source-nonempty (opened ++ ranges) g

  module _ (sep array_var : Text) (request : Request) where
    opened : Result (List Source)
    opened = Aggregate.init csv files request.files 1024 request.array_request array_var

    -- The function ends for every request, with the file and the count or with an exception.
    pub create_workfile_from-Ends :
        (out : Result Output) × (create_workfile_from csv files sep array_var request ≡ some out)
    unfolding create_workfile_from opened
    create_workfile_from-Ends = elim (Result-cases opened) [
      | inr (x, e) ↦ (err x, rw e refl)
      | inl (sources, e) ↦
          let (s, ss, same) = init-ne-nil request.files 1024 request.array_request array_var e in
          let (rows, f) = collect-Ends (suc (remaining s)) s ss (omega arith) in
          let (out, g) = file_of-some sep request.script rows in (out, rw (e, same, f) g)
    ]

    -- Where the sources open and end without an exception, the work file is that of the merged rows,
    -- as many as the shortest source has; without a row `StopIteration` is raised.
    pub create_workfile_from-transposed :
        (s : Source) (ss : List Source)
        → Aggregate.init csv files request.files 1024 request.array_request array_var ≡ ok (s ∷ ss)
        → All IsClean (s ∷ ss)
        → create_workfile_from csv files sep array_var request
          ≡ some (
              written (
                create_workfile sep request.script (
                  map
                    (merge [])
                    (transposed (shortest (rows_of s) (map rows_of ss)) (map rows_of (s ∷ ss))))))
    unfolding create_workfile_from
    create_workfile_from-transposed s ss e clean =
        let n = shortest (rows_of s) (map rows_of ss) in
        let enough : n < suc (remaining s) =
          omega (arith, shortest-le (rows_of s) (map rows_of ss), rows_of-le-remaining s) in
        rw (e, collect_rows n (suc (remaining s)) s ss clean refl enough) refl
