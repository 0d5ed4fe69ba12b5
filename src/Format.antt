-- ===== src/Format.antt =====
-- `str.format` with named arguments, as far as the scripts use it: fields are plain names, with no
-- attribute, index, conversion or format specification.
pub mod Templates
use worker_ng.Base.{ℕ, Option, none, some, List, [], ◌∷◌, ◌++◌, if◌then◌else◌, ◌==◌}
use worker_ng.Text.{Text, codes}
use worker_ng.Dict.{Dict, lookup}
use worker_ng.Errors.{Result, ok, err, value_error, key_error, index_error, ◌>>=◌}

-- Where the scan stands: in plain text, behind one brace, or within a field.
pub data Mode : Type 0 where
  outside after_open after_close : Mode
  inside : Text → Mode

abbrev pub found : Text → Option Text → Result Text
found name none = err (key_error name)
found name (some value) = ok value

-- The value of a field; a field without a name is positional, and there are no such arguments.
unfoldable pub get_value : Dict → Text → Result Text
get_value params [] = err index_error
get_value params (c ∷ name) = found (c ∷ name) (lookup (c ∷ name) params)

abbrev pub prepend : ℕ → Result Text → Result Text
prepend c rest = do s ← rest; ok (c ∷ s)

abbrev pub substituted : Result Text → Result Text → Result Text
substituted value rest = do v ← value; s ← rest; ok (v ++ s)

abbrev pub single_close : Result Text
single_close = err (value_error (codes "Single '}' encountered in format string"))

unfoldable pub format_loop : Dict → Mode → Text → Result Text
format_loop params outside [] = ok []
format_loop params outside (c ∷ s) =
    let opened = format_loop params after_open s in
    let closed = format_loop params after_close s in
    let plain = prepend c (format_loop params outside s) in
    if c == b'{' then opened else if c == b'}' then closed else plain
format_loop params after_open [] =
    err (value_error (codes "Single '{' encountered in format string"))
format_loop params after_open (c ∷ s) =
    let escaped = prepend c (format_loop params outside s) in
    let nameless = substituted (get_value params []) (format_loop params outside s) in
    let field = format_loop params (inside (c ∷ [])) s in
    if c == b'{' then escaped else if c == b'}' then nameless else field
format_loop params after_close [] = single_close
format_loop params after_close (c ∷ s) =
    let escaped = prepend c (format_loop params outside s) in
    if c == b'}' then escaped else single_close
format_loop params (inside name) [] = err (value_error (codes "expected '}' before end of string"))
format_loop params (inside name) (c ∷ s) =
    let field = substituted (get_value params name) (format_loop params outside s) in
    let longer = format_loop params (inside (name ++ c ∷ [])) s in
    if c == b'}' then field else longer

-- `template.format(**params)`
unfoldable pub format : Dict → Text → Result Text
unfolding format_loop get_value
format params s = format_loop params outside s
