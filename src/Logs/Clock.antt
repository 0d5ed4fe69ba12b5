-- ===== src/Logs/Clock.antt =====
-- `datetime.datetime.strptime(s, '%Y-%m-%d %H:%M:%S.%f')` and the difference of two times.
use worker_ng.Base.{
  ℕ, zero, suc, ◌+◌, ◌-◌, ◌*◌, ◌/◌, ◌%◌, ◌^◌, Bool, not, ◌&&◌, ◌||◌, Option, none, some, leb, ltb,
  ◌==◌, if◌then◌else◌, length, ℤ, sub_ℕ,
}
use worker_ng.Text.{Text, codes, is_space}
use worker_ng.Text.Numbers.{is_digit, value_from}
use worker_ng.Errors.{Result, ok, err, value_error}
use worker_ng.Regex.{
  Groups, Regex, chr, plus, only, repeat, group, dollar, ◌⋯◌, Match, re_match, get_group,
}

-- A `datetime`, as the number of microseconds since the beginning of the year 1.
pub record Datetime : Type 0 where
  pub microseconds : ℕ

-- A `timedelta`, in microseconds.
abbrev pub Timedelta : Type 0
Timedelta = ℤ

-- `end - start`
abbrev pub elapsed : Datetime → Datetime → Timedelta
elapsed end start = sub_ℕ end.microseconds start.microseconds

abbrev is_leap : ℕ → Bool
is_leap y = (y % 4 == 0) && (not (y % 100 == 0) || y % 400 == 0)

abbrev days_in_month : ℕ → ℕ → ℕ
days_in_month y m =
    if m == 2
    then (if is_leap y then 29 else 28)
    else if m == 4 || m == 6 || m == 9 || m == 11
    then 30
    else 31

-- The days of the first `m` months of the year.
abbrev days_of_months : ℕ → ℕ → ℕ
days_of_months y zero = 0
days_of_months y (suc m) = days_of_months y m + days_in_month y (suc m)

abbrev days_of_years : ℕ → ℕ
days_of_years y = y * 365 + y / 4 - y / 100 + y / 400

-- The fields of a time, and what `datetime` and `strptime` accept.
record Fields : Type 0 where
  year : ℕ
  month : ℕ
  day : ℕ
  hour : ℕ
  minute : ℕ
  second : ℕ
  micro : ℕ

are_valid : Fields → Bool
are_valid t =
    ltb 0 t.year
    && leb 1 t.month
    && leb t.month 12
    && leb 1 t.day
    && leb t.day (days_in_month t.year t.month)
    && ltb t.hour 24
    && ltb t.minute 60
    && ltb t.second 60

to_datetime : Fields → Datetime
to_datetime t =
    let days = days_of_years (t.year - 1) + days_of_months t.year (t.month - 1) + (t.day - 1) in
    record {
      microseconds = (((days * 24 + t.hour) * 60 + t.minute) * 60 + t.second) * 10 ^ 6 + t.micro;
    }

-- The format's fields, each with the digits that the log's own expression leaves to it.
abbrev format_expr : Regex
format_expr =
    group (codes "Y") (repeat 4 is_digit)
    ⋯ chr (only b'-')
    ⋯ group (codes "m") (repeat 2 is_digit)
    ⋯ chr (only b'-')
    ⋯ group (codes "d") (repeat 2 is_digit)
    ⋯ plus is_space
    ⋯ group (codes "H") (repeat 2 is_digit)
    ⋯ chr (only b':')
    ⋯ group (codes "M") (repeat 2 is_digit)
    ⋯ chr (only b':')
    ⋯ group (codes "S") (repeat 2 is_digit)
    ⋯ chr (only b'.')
    ⋯ group (codes "f") (plus is_digit)
    ⋯ dollar

field : Text → Groups → ℕ
field name gs = value_from 0 (get_group name gs)

-- `%f` takes at most six digits and reads them as a decimal fraction.
fields_of : Groups → Fields
unfolding field
fields_of gs = record {
  year = field (codes "Y") gs;
  month = field (codes "m") gs;
  day = field (codes "d") gs;
  hour = field (codes "H") gs;
  minute = field (codes "M") gs;
  second = field (codes "S") gs;
  micro = field (codes "f") gs * 10 ^ (6 - length (get_group (codes "f") gs));
}

abbrev bad_time : Result Datetime
bad_time = err (value_error (codes "time data does not match format"))

read_fields : Option Match → Result Datetime
unfolding fields_of are_valid to_datetime
read_fields none = bad_time
read_fields (some m) =
    if leb (length (get_group (codes "f") m.groups)) 6 && are_valid (fields_of m.groups)
    then ok (to_datetime (fields_of m.groups))
    else bad_time

-- `LogParser.parse_time`
unfoldable pub parse_time : Text → Result Datetime
unfolding read_fields
parse_time datetime_str = read_fields (re_match format_expr datetime_str)
