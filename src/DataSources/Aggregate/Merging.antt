-- ===== src/DataSources/Aggregate/Merging.antt =====
-- Which value a variable gets that several sources provide.
use worker_ng.Base.{◌≡◌, refl, ◌∙◌, some, none, Option, List, [], ◌∷◌, map, All, ℕ, suc}
use worker_ng.Text.{Text, rstrip}
use worker_ng.Text.Numbers.{str}
use worker_ng.Dict.{Dict, lookup, insert, update}
use worker_ng.Dict.Laws.{UniqueKeys, insert-UniqueKeys, or_else, lookup-update}
use worker_ng.Errors.{ok}
use worker_ng.DataSources.Csv.{zip_dict}
use worker_ng.DataSources.Aggregate.{Source, csv_source, column_source, range_source, merge, next}
use worker_ng.DataSources.Aggregate.Rows.{
  rows_of, good_rows, head_row, IsClean, shortest, Step, next_zip-Step,
}

-- The value of the last dict that has the variable.
abbrev pub last_value : Text → List Dict → Option Text
last_value k [] = none
last_value k (d ∷ ds) = or_else (last_value k ds) (lookup k d)

or_else_assoc : (a b c : Option Text) → or_else (or_else a b) c ≡ or_else a (or_else b c)
or_else_assoc none b c = refl
or_else_assoc (some v) b c = refl

lookup-merge :
    (k : Text) (m : Dict) (ds : List Dict)
    → All UniqueKeys ds
    → lookup k (merge m ds) ≡ or_else (last_value k ds) (lookup k m)
unfolding merge
lookup-merge k m [] h = refl
lookup-merge k m (d ∷ ds) (h, hs) =
    rw (lookup-merge k (update m d) ds hs, lookup-update k m d h, or_else_assoc)

zip_dict-UniqueKeys : (m : Dict) (ks vs : List Text) → UniqueKeys m → UniqueKeys (zip_dict m ks vs)
unfolding zip_dict
zip_dict-UniqueKeys m [] vs h = h
zip_dict-UniqueKeys m (k ∷ ks) [] h = h
zip_dict-UniqueKeys m (k ∷ ks) (v ∷ vs) h =
    zip_dict-UniqueKeys (insert k v m) ks vs (insert-UniqueKeys k v m h)

or_else-none : (o : Option Text) → or_else o none ≡ o
or_else-none none = refl
or_else-none (some v) = refl

single-UniqueKeys : (k v : Text) → UniqueKeys ((k, v) ∷ [])
unfolding lookup
single-UniqueKeys k v = (refl, tt)

head-UniqueKeys : (s : Source) → UniqueKeys (head_row (rows_of s))
head-UniqueKeys (csv_source s) = csv_head s.fieldnames (good_rows s.reader)
  where
    csv_head :
        (names : List Text) (rows : List (List Text))
        → UniqueKeys (head_row (map (zip_dict [] names) rows))
    csv_head names [] = tt
    csv_head names (row ∷ rows) = zip_dict-UniqueKeys [] names row tt
head-UniqueKeys (column_source s) = column_head s.fieldname s.file
  where
    column_head :
        (name : Text) (lines : List Text)
        → UniqueKeys (head_row (map (λ line. (name, rstrip line) ∷ []) lines))
    column_head name [] = tt
    column_head name (line ∷ lines) = single-UniqueKeys name (rstrip line)
head-UniqueKeys (range_source s) = range_head s.fieldname s.iter
  where
    range_head :
        (name : Text) (ns : List ℕ) → UniqueKeys (head_row (map (λ n. (name, str n) ∷ []) ns))
    range_head name [] = tt
    range_head name (n ∷ ns) = single-UniqueKeys name (str n)

heads-UniqueKeys : (ss : List Source) → All UniqueKeys (map head_row (map rows_of ss))
heads-UniqueKeys [] = tt
heads-UniqueKeys (s ∷ ss) = (head-UniqueKeys s, heads-UniqueKeys ss)

-- While every source has a row left, `__next__` delivers a row, and in it each variable has the value of
-- the last source whose row has that variable, and no value if there is none.
pub lookup-next :
    (s : Source) (ss : List Source) (n : ℕ)
    → All IsClean (s ∷ ss)
    → shortest (rows_of s) (map rows_of ss) ≡ suc n
    → (values : Dict) × (rest : List Source) × (next (s ∷ ss) ≡ ok (values, rest))
      × ((k : Text) → lookup k values ≡ last_value k (map head_row (map rows_of (s ∷ ss))))
unfolding next Step lookup
lookup-next s ss n h e =
    let (s', ss', p, _, _) = next_zip-Step s ss n h e in
    let heads = map head_row (map rows_of (s ∷ ss)) in
    (
      merge [] heads,
      s' ∷ ss',
      rw p,
      λ k. lookup-merge k [] heads (heads-UniqueKeys (s ∷ ss)) ∙ or_else-none (last_value k heads),
    )
