-- ===== src/Options/Commands.antt =====
-- `parse_submit_cmd` and `_get_parser_class_info` of scripts/worker/option_parser.py.
pub mod Stored
use worker_ng.Base.{
  ℕ, ◌+◌, ◌-◌, true, false, ◌&&◌, List, [], ◌∷◌, ◌++◌, map, concat, if◌then◌else◌, leb,
}
use worker_ng.Text.{Text, codes, is_space, lstrip, strip, read_lines}
use worker_ng.Errors.{Result, ok, err, value_error, ◌>>=◌}
use worker_ng.Shlex
use worker_ng.DataSources.Column.{readline}

-- The characters up to the first white space, and the text from there on.
unfoldable pub take_word : Text → Text × Text
take_word [] = ([], [])
take_word (c ∷ s) = let (w, rest) = take_word s in if is_space c then ([], c ∷ s) else (c ∷ w, rest)

abbrev pub not_enough : Text → Result (Text × Text)
not_enough got =
    err (value_error (codes "not enough values to unpack (expected 2, got " ++ (got ++ codes ")")))

abbrev pub two_parts : Text → Text → Result (Text × Text)
two_parts [] rest = not_enough (codes "0")
two_parts (c ∷ w) [] = not_enough (codes "1")
two_parts (c ∷ w) (d ∷ rest) = ok (c ∷ w, d ∷ rest)

-- `s.split(maxsplit=1)`, unpacked into two texts.
unfoldable pub split_command : Text → Result (Text × Text)
unfolding take_word lstrip
split_command s = let (w, rest) = take_word (lstrip s) in two_parts w (lstrip rest)

-- `parse_submit_cmd`, on what the file holds.
unfoldable pub parse_submit_cmd : Text → Result (List Text)
unfolding split_command strip
parse_submit_cmd file = do
  parts ← split_command (strip (readline (read_lines file)).0)
  Shlex.split false parts.1
