-- ===== src/DataSources/Aggregate.antt =====
-- `DataSource` of scripts/worker/data_sources.py: the sources of a job side by side.
pub mod Rows
pub mod Merging
pub mod Rounds
use worker_ng.Base.{ℕ, zero, suc, ◌+◌, Option, none, some, List, [], ◌∷◌, ◌++◌, map, length}
use worker_ng.Text.{Text, codes}
use worker_ng.Dict.{Dict, update}
use worker_ng.Errors.{Exception, csv_error, value_error, stop_iteration, Result, ok, err, ◌>>=◌}
use worker_ng.DataSources.Range
use worker_ng.DataSources.Range.{RangeDataSource}
use worker_ng.DataSources.Csv
use worker_ng.DataSources.Csv.{CsvModule, Files, CsvDataSource}
use worker_ng.DataSources.Column
use worker_ng.DataSources.Column.{SingleColumnDataSource}

pub data Source : Type 0 where
  csv_source : CsvDataSource → Source
  column_source : SingleColumnDataSource → Source
  range_source : RangeDataSource → Source

abbrev pub after {ℓ} : {A : Type ℓ} → (A → Source) → Result (Dict × A) → Result (Dict × Source)
after make r = do found ← r; ok (found.0, make found.1)

unfoldable pub next_source : Source → Result (Dict × Source)
unfolding Csv.next Column.next Range.next
next_source (csv_source s) = after csv_source (Csv.next s)
next_source (column_source s) = after column_source (Column.next s)
next_source (range_source s) = after range_source (Range.next s)

-- `except ValueError: raise csv_error`
abbrev pub or_csv_error : Result SingleColumnDataSource → Result Source
or_csv_error (ok s) = ok (column_source s)
or_csv_error (err (value_error msg)) = err csv_error
or_csv_error (err e) = err e

-- `except csv.Error`: the file is tried as a single column.
abbrev pub or_column : Result SingleColumnDataSource → Result CsvDataSource → Result Source
or_column column (ok s) = ok (csv_source s)
or_column column (err csv_error) = or_csv_error column
or_column column (err e) = err e

abbrev pub some_source : List Source → Result (List Source)
some_source [] = err (value_error (codes "no data sources specified"))
some_source (s ∷ ss) = ok (s ∷ ss)

abbrev pub given : Option (List Text) → List Text
given none = []
given (some filenames) = filenames

module _ (csv : CsvModule) (files : Files) where
  unfoldable pub open_sources : List Text → ℕ → Result (List Source)
  unfolding Csv.init Column.init
  open_sources [] sniff_length = ok []
  open_sources (filename ∷ filenames) sniff_length = do
    source ← or_column (Column.init files filename) (Csv.init csv files filename sniff_length)
    sources ← open_sources filenames sniff_length
    ok (source ∷ sources)

  unfoldable pub range_sources : Option Text → Text → Result (List Source)
  unfolding Range.init
  range_sources none array_var = ok []
  range_sources (some array_spec) array_var = do
    source ← Range.init array_var array_spec
    ok (range_source source ∷ [])

  -- The constructor: what `zip` goes over.
  unfoldable pub init : Option (List Text) → ℕ → Option Text → Text → Result (List Source)
  unfolding open_sources range_sources
  init filenames sniff_length array_spec array_var = do
    opened ← open_sources (given filenames) sniff_length
    ranges ← range_sources array_spec array_var
    some_source (opened ++ ranges)

-- `next(self._iter)` of `zip`: the sources advance in order, until one raises.
unfoldable pub next_zip : List Source → Result (List Dict × List Source)
unfolding next_source
next_zip [] = ok ([], [])
next_zip (s ∷ ss) = do
  first ← next_source s
  rest ← next_zip ss
  ok (first.0 ∷ rest.0, first.1 ∷ rest.1)

-- The two loops of `__next__` over the dicts.
unfoldable pub merge : Dict → List Dict → Dict
unfolding update
merge values [] = values
merge values (d ∷ ds) = merge (update values d) ds

-- `__next__`
unfoldable pub next : List Source → Result (Dict × List Source)
unfolding next_zip merge
next sources = do found ← next_zip sources; ok (merge [] found.0, found.1)

-- What is left in a source.
abbrev pub remaining : Source → ℕ
remaining (csv_source s) = length s.reader
remaining (column_source s) = length s.file
remaining (range_source s) = length s.iter

abbrev pub with_row : Dict → Option (Result (List Dict)) → Option (Result (List Dict))
with_row values none = none
with_row values (some (ok rows)) = some (ok (values ∷ rows))
with_row values (some (err e)) = some (err e)

-- One round of a loop over the rows: `StopIteration` ends it, any other exception leaves it.
abbrev pub round :
    (List Source → Option (Result (List Dict)))
    → Result (Dict × List Source)
    → Option (Result (List Dict))
round again (ok (values, rest)) = with_row values (again rest)
round again (err stop_iteration) = some (ok [])
round again (err e) = some (err e)

-- `for data in data_sources`, with fuel for the rounds. Out of fuel there is no result.
unfoldable pub collect : ℕ → List Source → Option (Result (List Dict))
unfolding next
collect zero sources = none
collect (suc fuel) sources = round (collect fuel) (next sources)
