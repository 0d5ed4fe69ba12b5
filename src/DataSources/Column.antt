-- ===== src/DataSources/Column.antt =====
-- `SingleColumnDataSource` of scripts/worker/data_sources.py.
use worker_ng.Base.{◌||◌, List, [], ◌∷◌, ◌++◌, if◌then◌else◌, ◌==◌}
use worker_ng.Text.{Text, codes, strip, rstrip, read_lines}
use worker_ng.Text.Numbers.{is_digit}
use worker_ng.Dict.{Dict}
use worker_ng.Errors.{Result, ok, err, value_error, stop_iteration, ◌>>=◌}
use worker_ng.Regex.{Regex, CharClass, chr, star, dollar, ◌⋯◌, is_alpha, re_match}
use worker_ng.DataSources.Csv.{Files, open_file}
use worker_ng.DataSources.Range.{matched}

pub record SingleColumnDataSource : Type 0 where
  pub fieldname : Text
  -- the lines not yet read
  pub file : List Text

abbrev pub is_name_char : CharClass
is_name_char c = is_alpha c || is_digit c || c == b'_'

-- `^[A-Za-z][A-Za-z0-9_]*$`
abbrev pub name_expr : Regex
name_expr = chr is_alpha ⋯ (star is_name_char ⋯ dollar)

-- `file.readline()`: the empty text at the end of the file.
abbrev pub readline : List Text → Text × List Text
readline [] = ([], [])
readline (line ∷ rest) = (line, rest)

abbrev pub checked : Text → List Text → Result SingleColumnDataSource
checked fieldname file =
    if matched (re_match name_expr fieldname)
    then ok (record { fieldname = fieldname; file = file })
    else err (value_error (codes "'" ++ (fieldname ++ codes "' is not a valid column name")))

module _ (files : Files) where
  unfoldable pub init : Text → Result SingleColumnDataSource
  init filename = do
    content ← open_file files filename
    let first = readline (read_lines content)
    checked (strip first.0) first.1

abbrev pub deliver : Text → Text → List Text → Result (Dict × SingleColumnDataSource)
deliver fieldname [] rest = err stop_iteration
deliver fieldname (c ∷ line) rest =
    ok ((fieldname, rstrip (c ∷ line)) ∷ [], record { fieldname = fieldname; file = rest })

-- `__next__`
unfoldable pub next : SingleColumnDataSource → Result (Dict × SingleColumnDataSource)
next source = let (line, rest) = readline source.file in deliver source.fieldname line rest
