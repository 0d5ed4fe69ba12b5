-- ===== src/Logs/Lines.antt =====
-- The expressions of `LogParser` and `WorkitemLogParser`, and what they read in a line.
use worker_ng.Base.{ℕ, ◌||◌, Bool, Option, none, some, ◌==◌, [], ◌∷◌, ℤ, pos, negate, if◌then◌else◌}
use worker_ng.Text.{Text, codes, is_space}
use worker_ng.Text.Numbers.{is_digit, value_from}
use worker_ng.Regex.{
  CharClass, Groups, Regex, chr, star, plus, only, repeat, opt, group, word, ◌⋯◌, is_word, is_any,
  Match, re_match, get_group,
}
use worker_ng.DataSources.Range.{matched}

abbrev pub date_expr : Regex
date_expr =
    repeat 4 is_digit ⋯ chr (only b'-') ⋯ repeat 2 is_digit ⋯ chr (only b'-') ⋯ repeat 2 is_digit

abbrev pub time_expr : Regex
time_expr =
    repeat 2 is_digit
    ⋯ chr (only b':')
    ⋯ repeat 2 is_digit
    ⋯ chr (only b':')
    ⋯ repeat 2 is_digit
    ⋯ chr (only b'.')
    ⋯ plus is_digit

abbrev pub log_level_expr : Regex
log_level_expr = chr (only b'[') ⋯ group (codes "log_level") (plus is_word) ⋯ chr (only b']')

abbrev pub workitem_id_expr : Regex
workitem_id_expr = group (codes "workitem_id") (plus is_digit)

-- `[\w\-]`
abbrev pub is_id_char : CharClass
is_id_char c = is_word c || c == b'-'

abbrev pub client_id_expr : Regex
client_id_expr = group (codes "client_id") (plus is_id_char)

abbrev pub exit_status_expr : Regex
exit_status_expr = group (codes "exit_status") (opt (chr (only b'-')) ⋯ plus is_digit)

abbrev pub datetime_expr : Regex
datetime_expr = group (codes "datetime") (date_expr ⋯ plus is_space ⋯ time_expr)

abbrev pub prefix_expr : Regex
prefix_expr = datetime_expr ⋯ plus is_space ⋯ log_level_expr ⋯ star is_space ⋯ chr (only b':')

abbrev pub msg_expr : Regex
msg_expr = word (codes "workitem") ⋯ plus is_space ⋯ workitem_id_expr

abbrev pub started_msg_expr : Regex
started_msg_expr =
    msg_expr
    ⋯ plus is_space
    ⋯ word (codes "started")
    ⋯ star is_space
    ⋯ chr (only b':')
    ⋯ star is_space
    ⋯ client_id_expr

abbrev pub done_msg_expr : Regex
done_msg_expr =
    msg_expr
    ⋯ plus is_space
    ⋯ word (codes "done")
    ⋯ star is_space
    ⋯ chr (only b':')
    ⋯ star is_space
    ⋯ exit_status_expr

abbrev pub log_line_expr : Regex
log_line_expr = prefix_expr ⋯ plus is_space ⋯ plus is_any

abbrev pub started_expr : Regex
started_expr = prefix_expr ⋯ plus is_space ⋯ started_msg_expr

abbrev pub done_expr : Regex
done_expr = prefix_expr ⋯ plus is_space ⋯ done_msg_expr

unfoldable pub is_log_line : Text → Bool
is_log_line line = matched (re_match log_line_expr line)

-- `int` of the digits that `exit_status` matched, with their sign.
abbrev pub signed : Text → ℤ
signed [] = pos 0
signed (c ∷ s) = if c == b'-' then negate (value_from 0 s) else pos (value_from 0 (c ∷ s))

-- What a line says of a work item.
pub data Event : Type 0 where
  started : (item_id : ℕ) (client_id datetime : Text) → Event
  done : (item_id : ℕ) (exit_status : ℤ) (datetime : Text) → Event
  other : Event

abbrev pub started_of : Groups → Event
started_of gs =
    started (value_from 0 (get_group (codes "workitem_id") gs)) (get_group (codes "client_id") gs)
      (get_group (codes "datetime") gs)

abbrev pub done_of : Groups → Event
done_of gs =
    done (value_from 0 (get_group (codes "workitem_id") gs))
      (signed (get_group (codes "exit_status") gs)) (get_group (codes "datetime") gs)

abbrev pub or_done : Option Match → Event
or_done none = other
or_done (some m) = done_of m.groups

abbrev pub or_started : Option Match → Event → Event
or_started none e = e
or_started (some m) e = started_of m.groups

-- The tests of the loop body of `WorkitemLogParser._parse`, in their order.
unfoldable pub event_of : Text → Event
event_of line = or_started (re_match started_expr line) (or_done (re_match done_expr line))
