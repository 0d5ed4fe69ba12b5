-- ===== src/Logs/Report.antt =====
-- `convert_to_dict` and `WorkitemReport` of scripts/worker/log_parsers.py. The data frames of `pandas` are
-- a parameter: the operations that the report calls, with the rows that each keeps.
pub mod Columns
pub mod Clients
pub mod Views
pub mod Partition
pub mod Verdicts
use worker_ng.Base.{
  ℕ, ◌≡◌, Bool, true, false, not, ◌&&◌, Option, none, some, List, map, keep, sorted, ℤ, zero, pos,
  suc, negsuc,
}
use worker_ng.Text.{Text}
use worker_ng.Errors.{Result, ok, err, ◌>>=◌}
use worker_ng.Logs.Clock.{Datetime, Timedelta}
use worker_ng.Logs.Parser
use worker_ng.Logs.Parser.{WorkItem, Items}
use worker_ng.Logs.Report.Columns.{Table, convert_to_dict, rows_of}

abbrev pub is_some {ℓ} : {A : Type ℓ} → Option A → Bool
is_some none = false
is_some (some a) = true

-- No value of the row is missing.
abbrev pub is_complete : WorkItem → Bool
is_complete w =
    is_some w.client_id && is_some w.start_time && is_some w.duration && is_some w.status

-- `status == 0` of a row; a missing status compares unequal.
abbrev pub is_zero : Option ℤ → Bool
is_zero none = false
is_zero (some (pos zero)) = true
is_zero (some (pos (suc n))) = false
is_zero (some (negsuc n)) = false

-- What the report uses of `pandas`: a frame has rows, and an index, here the item numbers.
pub record Pandas : Type 1 where
  pub Frame : Type 0
  pub rows : Frame → List WorkItem
  -- `DataFrame(table).set_index('item_id')`
  pub frame : Table → Frame
  pub rows-frame : (t : Table) → rows (frame t) ≡ rows_of t
  -- `df.query('status == 0')`
  pub query_success : Frame → Frame
  pub rows-query_success :
      (f : Frame) → rows (query_success f) ≡ keep (λ w. is_zero w.status) (rows f)
  -- `df.query('status != 0')`
  pub query_failure : Frame → Frame
  pub rows-query_failure :
      (f : Frame) → rows (query_failure f) ≡ keep (λ w. not (is_zero w.status)) (rows f)
  -- `df.dropna()`
  pub dropna : Frame → Frame
  pub rows-dropna : (f : Frame) → rows (dropna f) ≡ keep is_complete (rows f)
  -- `df[df['status'].isnull()]`
  pub null_status : Frame → Frame
  pub rows-null_status :
      (f : Frame) → rows (null_status f) ≡ keep (λ w. not (is_some w.status)) (rows f)
  -- `df.index`, where every row has an item number
  pub index : Frame → List ℕ
  pub index-rows :
      (f : Frame) (ids : List ℕ)
      → map (λ (w : WorkItem). w.item_id) (rows f) ≡ map some ids
      → index f ≡ ids

module _ (pd : Pandas) where
  open pd use {Frame, frame, query_success, query_failure, dropna, null_status, index}

  -- A `WorkitemReport` is its frame.
  unfoldable pub report : Items → Frame
  report workitems = frame (convert_to_dict (map (λ i. i.1) workitems))

  unfoldable pub successes : Frame → List ℕ
  successes df = sorted (index (query_success df))

  unfoldable pub failures : Frame → List ℕ
  failures df = sorted (index (query_failure (dropna df)))

  unfoldable pub incompletes : Frame → List ℕ
  incompletes df = sorted (index (null_status df))

  abbrev pub some_report : Option Items → Option Frame
  some_report none = none
  some_report (some items) = some (report items)

  -- `WorkitemLogParser.parse`: the report, or `None`.
  unfoldable pub parse : Text → Result (Option Frame)
  parse file = do items ← Parser.parse file; ok (some_report items)
