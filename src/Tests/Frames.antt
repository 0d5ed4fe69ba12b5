-- ===== src/Tests/Frames.antt =====
-- Data frames as lists of rows.
use worker_ng.Base.{ℕ, ◌≡◌, refl, not, none, some, List, [], ◌∷◌, map, keep, arith}
use worker_ng.Logs.Parser.{WorkItem}
use worker_ng.Logs.Report.{Pandas, is_some, is_complete, is_zero}
use worker_ng.Logs.Report.Columns.{rows_of}

unfoldable pub numbers : List WorkItem → List ℕ
numbers [] = []
numbers (w ∷ ws) = let rest = numbers ws in elim w.item_id [ none ↦ rest | some k ↦ k ∷ rest ]

pub numbers_lem :
    (ws : List WorkItem) (ids : List ℕ)
    → map (λ (w : WorkItem). w.item_id) ws ≡ map some ids
    → numbers ws ≡ ids
unfolding numbers
numbers_lem [] [] e = refl
numbers_lem [] (k ∷ ids) e = cc
numbers_lem (w ∷ ws) [] e = cc
numbers_lem (w ∷ ws) (k ∷ ids) e = ground (arith, numbers_lem ws ids)

abbrev pub frames : Pandas
frames = record {
  Frame = List WorkItem;
  rows = λ f. f;
  frame = rows_of;
  rows-frame = λ t. refl;
  query_success = keep (λ w. is_zero w.status);
  rows-query_success = λ f. refl;
  query_failure = keep (λ w. not (is_zero w.status));
  rows-query_failure = λ f. refl;
  dropna = keep is_complete;
  rows-dropna = λ f. refl;
  null_status = keep (λ w. not (is_some w.status));
  rows-null_status = λ f. refl;
  index = numbers;
  index-rows = numbers_lem;
}
