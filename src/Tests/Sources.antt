-- ===== src/Tests/Sources.antt =====
-- Job array expressions and data sources.
use worker_ng.Base.{
  ℕ, suc, ◌≡◌, ◌↔◌, ◌⊎◌, refl, true, false, some, List, [], ◌∷◌, ◌++◌, map, concat, All, length,
}
use worker_ng.Text.{Text, codes, split, text_eq, is_space}
use worker_ng.Text.Numbers.{int}
use worker_ng.Regex.{run, get_group}
use worker_ng.Errors.{ok, err, value_error}
use worker_ng.DataSources.Range
use worker_ng.DataSources.Range.{RangeDataSource, is_valid, range}
use worker_ng.DataSources.Range.Grammar.{Item, IsItem, IsEnd, render, is_valid_iff}
use worker_ng.DataSources.Range.Whole.{
  one, from_to, print_numbers, numbers, init_outcome, init-print_numbers,
}
use worker_ng.DataSources.Aggregate.{Source, range_source, column_source, collect, merge}
use worker_ng.DataSources.Aggregate.Rows.{
  rows_of, IsClean, shortest, transposed, collect-transposed,
}

-- The cases of test/worker/test_data_sources.py.
values_single_range :
    Range.init (codes "x") (codes "5,9-11,16")
    ≡ ok (record { fieldname = codes "x"; iter = 5 ∷ 9 ∷ 10 ∷ 11 ∷ 16 ∷ [] })
unfolding Range.init run split int is_space range get_group text_eq
values_single_range = refl

empty_range :
    Range.init (codes "x") (codes "9-5") ≡ ok (record { fieldname = codes "x"; iter = [] })
unfolding Range.init run split int is_space range get_group text_eq
empty_range = refl

invalid_range : is_valid (codes "5+9") ≡ false
unfolding is_valid run
invalid_range = refl

is_valid_iff_example : (is_valid (codes "5+9") ≡ true) ↔ (
    (i : Item) × (is : List Item) × (t : Text) × IsItem i
    × All IsItem is
    × IsEnd t
    × (codes "5+9" ≡ render i is ++ t))
is_valid_iff_example = is_valid_iff (codes "5+9")

init_outcome_example :
    ((is_valid (codes "5+9") ≡ true)
      × ((iter : List ℕ) × (Range.init (codes "x") (codes "5+9")
            ≡ ok (record { fieldname = codes "x"; iter = iter }))))
    ⊎ ((is_valid (codes "5+9") ≡ false)
        × (Range.init (codes "x") (codes "5+9")
            ≡ err (
                value_error
                  (codes "'" ++ (codes "5+9" ++ codes "' is not a valid array expressin")))))
init_outcome_example = init_outcome (codes "x") (codes "5+9")

init-print_numbers_example :
    Range.init (codes "x") (render (print_numbers (one 5)) (map print_numbers (from_to 7 9 ∷ [])))
    ≡ ok (record { fieldname = codes "x"; iter = concat (map numbers (one 5 ∷ from_to 7 9 ∷ [])) })
init-print_numbers_example = init-print_numbers (codes "x") (one 5) (from_to 7 9 ∷ [])

abbrev array : Source
array = range_source (record { fieldname = codes "id"; iter = 1 ∷ 2 ∷ 3 ∷ [] })

abbrev column : Source
column = column_source (record { fieldname = codes "x"; file = codes "a\n" ∷ codes "b" ∷ [] })

IsClean-sources : All IsClean (array ∷ column ∷ [])
IsClean-sources = (tt, ((cc, (cc, tt)), tt))

collect-transposed_example :
    collect (suc (length (rows_of array))) (array ∷ column ∷ [])
    ≡ some (
        ok (
          map (merge []) (
            transposed
              (shortest (rows_of array) (map rows_of (column ∷ [])))
              (map rows_of (array ∷ column ∷ [])))))
collect-transposed_example = collect-transposed array (column ∷ []) IsClean-sources

two_rows : shortest (rows_of array) (map rows_of (column ∷ [])) ≡ 2
two_rows = refl
