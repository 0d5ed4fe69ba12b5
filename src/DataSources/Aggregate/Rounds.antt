-- ===== src/DataSources/Aggregate/Rounds.antt =====
-- A loop over the rows ends, also where a source raises: each round takes something from the first
-- source.
use worker_ng.Base.{
  ℕ, zero, suc, ◌<◌, ◌≡◌, refl, ap, inl, inr, Option, none, some, List, [], ◌∷◌, length, arith,
}
use worker_ng.Text.{Text}
use worker_ng.Dict.{Dict}
use worker_ng.Errors.{Result, ok, ok_inj, err, Exception, stop_iteration, Result-cases}
use worker_ng.DataSources.Aggregate.{
  Source, csv_source, column_source, range_source, next_source, next_zip, next, remaining, with_row,
  round, collect,
}

-- A source that delivers a row has less left.
Shrinks : Source → Type 0
Shrinks s = (d : Dict) (s' : Source) → next_source s ≡ ok (d, s') → remaining s' < remaining s

left_over : (n : ℕ) {p q : Dict × Source} → ok p ≡ ok q → remaining p.1 ≡ n → remaining q.1 < suc n
left_over n e h = omega (arith, ap (λ (r : Dict × Source). remaining r.1) (ok_inj e))

next_source-Shrinks : (s : Source) → Shrinks s
unfolding Shrinks next_source
next_source-Shrinks (csv_source s) = by_reader s.fieldnames s.reader
  where
    by_reader :
        (names : List Text) (reader : List (Result (List Text)))
        → Shrinks (csv_source (record { fieldnames = names; reader = reader }))
    by_reader names [] d s' e = cc
    by_reader names (err x ∷ rest) d s' e = cc
    by_reader names (ok row ∷ rest) d s' e = left_over (length rest) e refl
next_source-Shrinks (column_source s) = by_file s.fieldname s.file
  where
    by_file :
        (name : Text) (file : List Text)
        → Shrinks (column_source (record { fieldname = name; file = file }))
    by_file name [] d s' e = cc
    by_file name ([] ∷ rest) d s' e = cc
    by_file name ((c ∷ line) ∷ rest) d s' e = left_over (length rest) e refl
next_source-Shrinks (range_source s) = by_iter s.fieldname s.iter
  where
    by_iter :
        (name : Text) (iter : List ℕ)
        → Shrinks (range_source (record { fieldname = name; iter = iter }))
    by_iter name [] d s' e = cc
    by_iter name (n ∷ rest) d s' e = left_over (length rest) e refl

Ends : Option (Result (List Dict)) → Type 0
Ends o = (rows : Result (List Dict)) × (o ≡ some rows)

with_row-Ends : (d : Dict) (o : Option (Result (List Dict))) → Ends o → Ends (with_row d o)
unfolding Ends
with_row-Ends d none (rows, e) = cc
with_row-Ends d (some (ok rows)) h = (ok (d ∷ rows), refl)
with_row-Ends d (some (err x)) h = (err x, refl)

round-Ends :
    (again : List Source → Option (Result (List Dict))) (x : Exception) → Ends (round again (err x))
unfolding Ends
round-Ends again stop_iteration = (ok [], refl)
round-Ends again x = (err x, refl)

-- Whatever the sources hold, also where their readers raise, a loop over the rows ends with all of
-- them or with an exception, in at most one round more than the first source has rows or lines left.
pub collect-Ends :
    (fuel : ℕ) (s : Source) (ss : List Source)
    → remaining s < fuel
    → (rows : Result (List Dict)) × (collect fuel (s ∷ ss) ≡ some rows)
unfolding collect next next_zip Ends Shrinks
collect-Ends zero s ss h = absurd (omega arith)
collect-Ends (suc fuel) s ss h = elim (Result-cases (next_source s)) [
  | inr (x, e) ↦ rw e (round-Ends (collect fuel) x)
  | inl ((d, s'), e) ↦ elim (Result-cases (next_zip ss)) [
    | inr (x, f) ↦ rw (e, f) (round-Ends (collect fuel) x)
    | inl ((ds, ss'), f) ↦
        let less = next_source-Shrinks s d s' e in
        rw (e, f) (with_row-Ends _ _ (collect-Ends fuel s' ss' (omega (arith, less, h))))
  ]
]
