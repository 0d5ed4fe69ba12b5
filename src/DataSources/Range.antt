-- ===== src/DataSources/Range.antt =====
-- `RangeDataSource` of scripts/worker/data_sources.py: a job array expression such as `1-5,9`.
pub mod Grammar
pub mod Values
pub mod Whole
use worker_ng.Base.{
  ℕ, zero, suc, ◌+◌, ◌-◌, Bool, true, false, Option, none, some, List, [], ◌∷◌, ◌++◌, if◌then◌else◌,
}
use worker_ng.Text.{Text, codes, split}
use worker_ng.Text.Numbers.{is_digit, int, str}
use worker_ng.Dict.{Dict}
use worker_ng.Errors.{Result, ok, err, value_error, stop_iteration, ◌>>=◌}
use worker_ng.Regex.{
  Regex, chr, plus, only, opt, many, group, dollar, ◌⋯◌, Match, re_match, get_group,
}

-- `\d+(?:\-\d+)?`
abbrev pub bounds_expr : Regex
bounds_expr = plus is_digit ⋯ opt (chr (only b'-') ⋯ plus is_digit)

-- `^\d+(?:\-\d+)?(?:,\d+(?:\-\d+)?)*$`
abbrev pub spec_expr : Regex
spec_expr = bounds_expr ⋯ (many (chr (only b',') ⋯ bounds_expr) ⋯ dollar)

-- `^(\d+)-(\d+)$`
abbrev pub interval_expr : Regex
interval_expr =
    group (codes "1") (plus is_digit)
    ⋯ (chr (only b'-') ⋯ (group (codes "2") (plus is_digit) ⋯ dollar))

abbrev pub matched : Option Match → Bool
matched none = false
matched (some m) = true

unfoldable pub is_valid : Text → Bool
is_valid range_str = matched (re_match spec_expr range_str)

count_up : ℕ → ℕ → List ℕ
count_up zero start = []
count_up (suc n) start = start ∷ count_up n (suc start)

-- `range(start, stop)`
unfoldable pub range : ℕ → ℕ → List ℕ
unfolding count_up
range start stop = count_up (stop - start) start

abbrev pub or_value_error : Option ℕ → Result ℕ
or_value_error none = err (value_error (codes "invalid literal for int()"))
or_value_error (some n) = ok n

-- The two branches of the loop over the parts, by the outcome of the match.
abbrev pub read_bounds : Text → Option Match → Result (List ℕ)
read_bounds range_str (some m) = do
  start ← or_value_error (int (get_group (codes "1") m.groups))
  end ← or_value_error (int (get_group (codes "2") m.groups))
  ok (range start (end + 1))
read_bounds range_str none = do
  start ← or_value_error (int range_str)
  end ← or_value_error (int range_str)
  ok (range start (end + 1))

unfoldable pub read_range : Text → Result (List ℕ)
read_range range_str = read_bounds range_str (re_match interval_expr range_str)

-- The loop, and the chain of its ranges.
unfoldable pub read_ranges : List Text → Result (List ℕ)
unfolding read_range
read_ranges [] = ok []
read_ranges (part ∷ parts) = do
  first ← read_range part
  rest ← read_ranges parts
  ok (first ++ rest)

pub record RangeDataSource : Type 0 where
  pub fieldname : Text
  -- what `_iter` has still to deliver
  pub iter : List ℕ

unfoldable pub init : Text → Text → Result RangeDataSource
unfolding is_valid read_ranges
init fieldname range_str =
    if is_valid range_str
    then (do
      all_ranges ← read_ranges (split b',' range_str)
      ok (record { fieldname = fieldname; iter = all_ranges }))
    else err (value_error (codes "'" ++ (range_str ++ codes "' is not a valid array expressin")))

abbrev pub deliver : Text → List ℕ → Result (Dict × RangeDataSource)
deliver fieldname [] = err stop_iteration
deliver fieldname (n ∷ rest) =
    ok ((fieldname, str n) ∷ [], record { fieldname = fieldname; iter = rest })

-- `__next__`: a row and the source after it.
unfoldable pub next : RangeDataSource → Result (Dict × RangeDataSource)
next source = deliver source.fieldname source.iter
