-- ===== src/Logs/Parser.antt =====
-- `WorkItem` and `WorkitemLogParser._parse` of scripts/worker/log_parsers.py.
pub mod Recorded
pub mod Outcome
pub mod Statuses
use worker_ng.Base.{
  ℕ, suc, ◌+◌, Option, none, some, List, [], ◌∷◌, ℤ, ltb, ◌==◌, if◌then◌else◌, length,
}
use worker_ng.Text.{Text, codes, read_lines}
use worker_ng.Errors.{Result, ok, err, log_parse, type_error, ◌>>=◌}
use worker_ng.Logs.Clock.{Datetime, Timedelta, elapsed, parse_time}
use worker_ng.Logs.Lines.{Event, started, done, other, is_log_line, event_of}

pub record WorkItem : Type 0 where
  pub item_id : Option ℕ
  pub client_id : Option Text
  pub start_time : Option Datetime
  pub duration : Option Timedelta
  pub status : Option ℤ

-- `WorkItem()`
abbrev pub blank : WorkItem
blank = record {
  item_id = none;
  client_id = none;
  start_time = none;
  duration = none;
  status = none;
}

-- `defaultdict(WorkItem)`, in insertion order.
abbrev pub Items : Type 0
Items = List (ℕ × WorkItem)

unfoldable pub find_item : ℕ → Items → Option WorkItem
find_item k [] = none
find_item k ((j, w) ∷ rest) = if j == k then some w else find_item k rest

-- Assignments to fields of `workitems[k]`, which creates the item if it is missing.
unfoldable pub update_item : ℕ → (WorkItem → WorkItem) → Items → Items
update_item k f [] = (k, f blank) ∷ []
update_item k f ((j, w) ∷ rest) = if j == k then (j, f w) ∷ rest else (j, w) ∷ update_item k f rest

abbrev pub set_started : ℕ → Text → Datetime → WorkItem → WorkItem
set_started item_id client_id start_time w = record w {
  item_id = some item_id;
  client_id = some client_id;
  start_time = some start_time;
}

abbrev pub set_done : ℤ → Timedelta → WorkItem → WorkItem
set_done status duration w = record w { status = some status; duration = some duration }

-- `end_time - workitems[item_id].start_time` raises where the item has no start time.
abbrev pub start_of : Option WorkItem → Result Datetime
start_of none = err type_error
start_of (some w) = elim w.start_time [ none ↦ err type_error | some t ↦ ok t ]

-- The two branches of the loop body.
unfoldable pub handle : Items → Event → Result Items
handle workitems (started item_id client_id datetime) = do
  start_time ← parse_time datetime
  ok (update_item item_id (set_started item_id client_id start_time) workitems)
handle workitems (done item_id exit_status datetime) = do
  end_time ← parse_time datetime
  start_time ← start_of (find_item item_id workitems)
  ok (update_item item_id (set_done exit_status (elapsed end_time start_time)) workitems)
handle workitems other = ok workitems

pub record State : Type 0 where
  pub workitems : Items
  pub nr_lines : ℕ
  pub nr_log_lines : ℕ

-- The body of the loop.
unfoldable pub parse_line : State → Text → Result State
unfolding handle
parse_line st line = do
  workitems ← handle st.workitems (event_of line)
  ok (record {
    workitems = workitems;
    nr_lines = st.nr_lines + 1;
    nr_log_lines = (if is_log_line line then st.nr_log_lines + 1 else st.nr_log_lines);
  })

unfoldable pub parse_loop : State → List Text → Result State
unfolding parse_line
parse_loop st [] = ok st
parse_loop st (line ∷ rest) = do next ← parse_line st line; parse_loop next rest

abbrev pub start : State
start = record { workitems = []; nr_lines = 0; nr_log_lines = 0 }

abbrev pub some_items : Items → Option Items
some_items [] = none
some_items (i ∷ is) = some (i ∷ is)

-- The tests behind the loop.
unfoldable pub finish : State → Result (Option Items)
finish st =
    if st.nr_lines == 0
    then err (log_parse (codes "empty log file"))
    else if ltb st.nr_log_lines st.nr_lines
    then err (log_parse (codes "ill-formed log file, verify log file"))
    else ok (some_items st.workitems)

-- `_parse`: the items of the report, or `None` if there are none.
unfoldable pub parse : Text → Result (Option Items)
unfolding parse_loop finish
parse file = do st ← parse_loop start (read_lines file); finish st
