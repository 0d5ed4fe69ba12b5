-- ===== src/Logs/Report/Columns.antt =====
-- `convert_to_dict`: the fields of the work items, a list for each field.
use worker_ng.Base.{ℕ, ◌≡◌, refl, ap, Option, List, [], ◌∷◌, ◌++◌, append-nil, append_assoc}
use worker_ng.Text.{Text}
use worker_ng.Base.{ℤ}
use worker_ng.Logs.Clock.{Datetime, Timedelta}
use worker_ng.Logs.Parser.{WorkItem}

-- `defaultdict(list)` with the names of the fields as its keys.
pub record Table : Type 0 where
  pub item_id : List (Option ℕ)
  pub client_id : List (Option Text)
  pub start_time : List (Option Datetime)
  pub duration : List (Option Timedelta)
  pub status : List (Option ℤ)

abbrev pub empty : Table
empty = record { item_id = []; client_id = []; start_time = []; duration = []; status = [] }

-- The inner loop: each field is appended to its list.
unfoldable pub append_fields : Table → WorkItem → Table
append_fields t w = record {
  item_id = t.item_id ++ w.item_id ∷ [];
  client_id = t.client_id ++ w.client_id ∷ [];
  start_time = t.start_time ++ w.start_time ∷ [];
  duration = t.duration ++ w.duration ∷ [];
  status = t.status ++ w.status ∷ [];
}

convert : Table → List WorkItem → Table
convert t [] = t
convert t (w ∷ ws) = convert (append_fields t w) ws

unfoldable pub convert_to_dict : List WorkItem → Table
unfolding convert append_fields
convert_to_dict = convert empty

zip_rows :
    List (Option ℕ)
    → List (Option Text)
    → List (Option Datetime)
    → List (Option Timedelta)
    → List (Option ℤ)
    → List WorkItem
zip_rows (i ∷ is) (c ∷ cs) (b ∷ bs) (d ∷ ds) (s ∷ ss) =
    record { item_id = i; client_id = c; start_time = b; duration = d; status = s }
    ∷ zip_rows is cs bs ds ss
zip_rows _ _ _ _ _ = []

-- The rows of a table.
unfoldable pub rows_of : Table → List WorkItem
unfolding zip_rows
rows_of t = zip_rows t.item_id t.client_id t.start_time t.duration t.status

columns : List WorkItem → Table
columns [] = empty
columns (w ∷ ws) =
    let t = columns ws in
    record {
      item_id = w.item_id ∷ t.item_id;
      client_id = w.client_id ∷ t.client_id;
      start_time = w.start_time ∷ t.start_time;
      duration = w.duration ∷ t.duration;
      status = w.status ∷ t.status;
    }

extended : Table → Table → Table
extended t u = record {
  item_id = t.item_id ++ u.item_id;
  client_id = t.client_id ++ u.client_id;
  start_time = t.start_time ++ u.start_time;
  duration = t.duration ++ u.duration;
  status = t.status ++ u.status;
}

extended-append_fields :
    (t : Table) (w : WorkItem) (ws : List WorkItem)
    → extended (append_fields t w) (columns ws) ≡ extended t (columns (w ∷ ws))
unfolding extended append_fields columns
extended-append_fields t w ws = cc (
  append_assoc t.item_id (w.item_id ∷ []) (columns ws).item_id,
  append_assoc t.client_id (w.client_id ∷ []) (columns ws).client_id,
  append_assoc t.start_time (w.start_time ∷ []) (columns ws).start_time,
  append_assoc t.duration (w.duration ∷ []) (columns ws).duration,
  append_assoc t.status (w.status ∷ []) (columns ws).status,
)

extended-empty : (t : Table) → t ≡ extended t empty
unfolding extended
extended-empty t = cc (
  append-nil t.item_id,
  append-nil t.client_id,
  append-nil t.start_time,
  append-nil t.duration,
  append-nil t.status,
)

convert-extended : (t : Table) (ws : List WorkItem) → convert t ws ≡ extended t (columns ws)
unfolding convert columns
convert-extended t [] = extended-empty t
convert-extended t (w ∷ ws) =
    rw (convert-extended (append_fields t w) ws) (extended-append_fields t w ws)

rows_of-columns : (ws : List WorkItem) → rows_of (columns ws) ≡ ws
unfolding rows_of columns
rows_of-columns [] = refl
rows_of-columns (w ∷ ws) = ap (◌∷◌ w) (rows_of-columns ws)

-- The rows of the converted work items are the work items, in order: nothing is lost or mixed up.
pub rows_of-convert_to_dict : (ws : List WorkItem) → rows_of (convert_to_dict ws) ≡ ws
unfolding convert_to_dict extended
rows_of-convert_to_dict ws = rw (convert-extended empty ws) (rows_of-columns ws)
