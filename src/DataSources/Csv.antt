-- ===== src/DataSources/Csv.antt =====
-- `CsvDataSource` of scripts/worker/data_sources.py. The module `csv` is a parameter: what its sniffer
-- and its reader return for a text.
use worker_ng.Base.{ℕ, zero, suc, List, [], ◌∷◌}
use worker_ng.Text.{Text, codes}
use worker_ng.Dict.{Dict, insert}
use worker_ng.Errors.{Result, ok, err, stop_iteration, ◌>>=◌}

-- `csv.Sniffer().sniff(sample, delimiters)` and `csv.reader(file, dialect)`, which delivers rows until
-- its end or until it raises.
pub record CsvModule : Type 1 where
  pub Dialect : Type 0
  pub sniff : Text → Text → Result Dialect
  pub reader : Dialect → Text → List (Result (List Text))

-- What `open` reads of a file by its name, or raises.
abbrev pub Files : Type 0
Files = Text → Result Text

abbrev pub open_file : Files → Text → Result Text
open_file files name = files name

-- `file.read(size)`
unfoldable pub read : ℕ → Text → Text
read zero s = []
read (suc n) [] = []
read (suc n) (c ∷ s) = c ∷ read n s

pub record CsvDataSource : Type 0 where
  pub fieldnames : List Text
  pub reader : List (Result (List Text))

-- `next(self._reader)`: a row and the reader after it.
abbrev pub next_row : List (Result (List Text)) → Result (List Text × List (Result (List Text)))
next_row [] = err stop_iteration
next_row (row ∷ rest) = do values ← row; ok (values, rest)

-- The dict comprehension over `zip(fieldnames, values)`.
unfoldable pub zip_dict : Dict → List Text → List Text → Dict
zip_dict m [] values = m
zip_dict m (k ∷ ks) [] = m
zip_dict m (k ∷ ks) (v ∷ vs) = zip_dict (insert k v m) ks vs

module _ (csv : CsvModule) (files : Files) where
  unfoldable pub init : Text → ℕ → Result CsvDataSource
  unfolding read
  init filename sniff_length = do
    content ← open_file files filename
    dialect ← csv.sniff (read sniff_length content) (codes "; ,\t")
    header ← next_row (csv.reader dialect content)
    ok (record { fieldnames = header.0; reader = header.1 })

-- `__next__`
unfoldable pub next : CsvDataSource → Result (Dict × CsvDataSource)
unfolding zip_dict
next source = do
  row ← next_row source.reader
  ok (
    zip_dict [] source.fieldnames row.0,
    record { fieldnames = source.fieldnames; reader = row.1 },
  )
