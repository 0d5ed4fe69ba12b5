-- ===== src/DataSources/Aggregate/Rows.antt =====
-- What iterating over a `DataSource` delivers, in terms of what each source has to deliver alone.
use Prim.Native.Nat.{min}
use worker_ng.Base.{
  ℕ, zero, suc, ◌-◌, ◌<◌, ◌≡◌, ◌≢◌, ◌⊎◌, refl, ap, ◌∙◌, inl, inr, some, List, [], ◌∷◌, map, length,
  arith, All,
}
use worker_ng.Text.{Text, rstrip}
use worker_ng.Text.Numbers.{str}
use worker_ng.Dict.{Dict}
use worker_ng.Errors.{Result, ok, err, stop_iteration}
use worker_ng.DataSources.Csv.{zip_dict}
use worker_ng.DataSources.Aggregate.{
  Source, csv_source, column_source, range_source, next_source, next_zip, merge, collect,
}

-- The rows that a CSV reader delivers before it ends or raises.
abbrev pub good_rows : List (Result (List Text)) → List (List Text)
good_rows [] = []
good_rows (ok row ∷ rest) = row ∷ good_rows rest
good_rows (err e ∷ rest) = []

-- What a source alone has still to deliver.
abbrev pub rows_of : Source → List Dict
rows_of (csv_source s) = map (zip_dict [] s.fieldnames) (good_rows s.reader)
rows_of (column_source s) = map (λ line. (s.fieldname, rstrip line) ∷ []) s.file
rows_of (range_source s) = map (λ n. (s.fieldname, str n) ∷ []) s.iter

-- A result that is no exception.
abbrev pub Succeeds : Result (List Text) → Type 0
Succeeds (ok row) = Unit
Succeeds (err e) = ⊥

-- The source ends without an exception: its CSV reader raises nowhere. A line of a file is not empty.
abbrev pub IsClean : Source → Type 0
IsClean (csv_source s) = All Succeeds s.reader
IsClean (column_source s) = All (λ line. line ≢ []) s.file
IsClean (range_source s) = Unit

-- Either the source is at its end, or it delivers its first row and goes on with the others.
abbrev Delivery : Source → Type 0
Delivery s =
    ((rows_of s ≡ []) × (next_source s ≡ err stop_iteration))
    ⊎ ((d : Dict) × (s' : Source) × (next_source s ≡ ok (d, s'))
        × IsClean s'
        × (rows_of s ≡ d ∷ rows_of s'))

csv-Delivery :
    (names : List Text) (reader : List (Result (List Text)))
    → All Succeeds reader
    → Delivery (csv_source (record { fieldnames = names; reader = reader }))
unfolding next_source
csv-Delivery names [] h = inl (refl, refl)
csv-Delivery names (ok row ∷ rest) (_, h) = inr (
  zip_dict [] names row,
  csv_source (record { fieldnames = names; reader = rest }),
  refl,
  h,
  refl,
)
csv-Delivery names (err e ∷ rest) (h, _) = absurd h

column-Delivery :
    (name : Text) (file : List Text)
    → All (λ line. line ≢ []) file
    → Delivery (column_source (record { fieldname = name; file = file }))
unfolding next_source
column-Delivery name [] h = inl (refl, refl)
column-Delivery name ([] ∷ rest) (h, _) = absurd (h refl)
column-Delivery name ((c ∷ line) ∷ rest) (_, h) = inr (
  (name, rstrip (c ∷ line)) ∷ [],
  column_source (record { fieldname = name; file = rest }),
  refl,
  h,
  refl,
)

range-Delivery :
    (name : Text) (iter : List ℕ)
    → Delivery (range_source (record { fieldname = name; iter = iter }))
unfolding next_source
range-Delivery name [] = inl (refl, refl)
range-Delivery name (n ∷ rest) =
    inr
      ((name, str n) ∷ [], range_source (record { fieldname = name; iter = rest }), refl, tt, refl)

delivery : (s : Source) → IsClean s → Delivery s
delivery (csv_source s) h = csv-Delivery s.fieldnames s.reader h
delivery (column_source s) h = column-Delivery s.fieldname s.file h
delivery (range_source s) h = range-Delivery s.fieldname s.iter

-- The number of rows of the shortest of one or more columns.
abbrev pub shortest : List Dict → List (List Dict) → ℕ
shortest c [] = length c
shortest c (d ∷ cs) = min (length c) (shortest d cs)

abbrev pub head_row : List Dict → Dict
head_row [] = []
head_row (d ∷ ds) = d

abbrev pub tail_rows : List Dict → List Dict
tail_rows [] = []
tail_rows (d ∷ ds) = ds

-- The first `n` rows across columns.
abbrev pub transposed : ℕ → List (List Dict) → List (List Dict)
transposed zero cols = []
transposed (suc n) cols = map head_row cols ∷ transposed n (map tail_rows cols)

next_zip_end :
    (s : Source) (ss : List Source)
    → All IsClean (s ∷ ss)
    → shortest (rows_of s) (map rows_of ss) ≡ 0
    → next_zip (s ∷ ss) ≡ err stop_iteration
unfolding next_zip
next_zip_end s [] (h, _) e = elim (delivery s h) [
  | inl (_, p) ↦ rw p
  | inr (d, s', _, _, q) ↦ absurd (omega (arith, e, ap length q))
]
next_zip_end s (t ∷ ss) (h, hs) e = elim (delivery s h) [
  | inl (_, p) ↦ rw p
  | inr (d, s', p, _, q) ↦ rw (p, next_zip_end t ss hs (omega (arith, e, ap length q)))
]

-- The sources after a step deliver the remaining rows of each.
unfoldable pub Step : Source → List Source → ℕ → Type 0
Step s ss n =
    (s' : Source) × (ss' : List Source) × (next_zip (s ∷ ss)
      ≡ ok (map head_row (map rows_of (s ∷ ss)), s' ∷ ss'))
    × All IsClean (s' ∷ ss')
    × (map rows_of (s' ∷ ss') ≡ map tail_rows (map rows_of (s ∷ ss)))

zip-Step :
    (s t : Source) (ss : List Source) (n m : ℕ) (d : Dict) (s' : Source)
    → next_source s ≡ ok (d, s')
    → IsClean s'
    → rows_of s ≡ d ∷ rows_of s'
    → Step t ss m
    → Step s (t ∷ ss) n
unfolding next_zip Step
zip-Step s t ss n m d s' p h' q (t', ss', p', hs', q') =
    (s', t' ∷ ss', rw (p, p', q), (h', hs'), rw q (ap (λ cs. rows_of s' ∷ cs) q'))

pub next_zip-Step :
    (s : Source) (ss : List Source) (n : ℕ)
    → All IsClean (s ∷ ss)
    → shortest (rows_of s) (map rows_of ss) ≡ suc n
    → Step s ss n
unfolding next_zip Step
next_zip-Step s [] n (h, _) e = elim (delivery s h) [
  | inl (q, _) ↦ absurd (omega (arith, e, ap length q))
  | inr (d, s', p, h', q) ↦ (s', [], rw (p, q), (h', tt), rw q)
]
next_zip-Step s (t ∷ ss) n (h, hs) e = elim (delivery s h) [
  | inl (q, _) ↦ absurd (omega (arith, e, ap length q))
  | inr (d, s', p, h', q) ↦
      let m = shortest (rows_of t) (map rows_of ss) - 1 in
      zip-Step s t ss n m d s' p h' q (next_zip-Step t ss m hs (omega (arith, e)))
]

abbrev shortest_of : List (List Dict) → ℕ
shortest_of [] = 0
shortest_of (c ∷ cs) = shortest c cs

length-tail_rows : (c : List Dict) → length (tail_rows c) ≡ length c - 1
length-tail_rows [] = omega arith
length-tail_rows (d ∷ c) = omega arith

shortest-tail_rows :
    (c : List Dict) (cs : List (List Dict)) (n : ℕ)
    → shortest c cs ≡ suc n
    → shortest (tail_rows c) (map tail_rows cs) ≡ n
shortest-tail_rows c [] n e = omega (arith, e, length-tail_rows c)
shortest-tail_rows c (d ∷ cs) n e =
    let m = shortest d cs - 1 in
    omega (arith, e, length-tail_rows c, shortest-tail_rows d cs m (omega (arith, e)))

pub shortest-le : (c : List Dict) (cs : List (List Dict)) → shortest c cs < suc (length c)
shortest-le c [] = omega arith
shortest-le c (d ∷ cs) = omega arith

pub collect_rows :
    (n fuel : ℕ) (s : Source) (ss : List Source)
    → All IsClean (s ∷ ss)
    → shortest (rows_of s) (map rows_of ss) ≡ n
    → n < fuel
    → collect fuel (s ∷ ss) ≡ some (ok (map (merge []) (transposed n (map rows_of (s ∷ ss)))))
unfolding collect Step
collect_rows n zero s ss h e lt = absurd (omega arith)
collect_rows zero (suc fuel) s ss h e lt = rw (next_zip_end s ss h e)
collect_rows (suc n) (suc fuel) s ss h e lt =
    let (s', ss', p, h', q) = next_zip-Step s ss n h e in
    let e' = ap shortest_of q ∙ shortest-tail_rows (rows_of s) (map rows_of ss) n e in
    let ih = collect_rows n fuel s' ss' h' e' (omega arith) in
    let same = ap (transposed n) q in rw (p, ih, same)

-- Iterating over sources that end without an exception: the rows are as many as the shortest source
-- has, and the `i`-th is made of the `i`-th row of every source, the later sources' values put over the
-- earlier ones'. One round more than the first source's number of rows is fuel enough.
pub collect-transposed :
    (s : Source) (ss : List Source)
    → All IsClean (s ∷ ss)
    → collect (suc (length (rows_of s))) (s ∷ ss)
      ≡ some (
          ok (
            map
              (merge [])
              (transposed (shortest (rows_of s) (map rows_of ss)) (map rows_of (s ∷ ss)))))
collect-transposed s ss h =
    collect_rows (shortest (rows_of s) (map rows_of ss)) (suc (length (rows_of s))) s ss h refl
      (shortest-le (rows_of s) (map rows_of ss))
