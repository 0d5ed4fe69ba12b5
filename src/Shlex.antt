-- ===== src/Shlex.antt =====
-- The module `shlex`: `split` in its POSIX mode, splitting at white space, and `quote` and `join`.
pub mod Joined
use worker_ng.Base.{
  ℕ, Bool, true, false, ◌&&◌, ◌||◌, not, List, [], ◌∷◌, ◌++◌, if◌then◌else◌, ◌==◌, leb,
}
use worker_ng.Text.{Text, codes, newline}
use worker_ng.Text.Numbers.{is_digit}
use worker_ng.Regex.{is_word}
use worker_ng.Errors.{Result, ok, err, value_error, ◌>>=◌}

-- The state of the lexer: between words, in a word, within quotes, behind a backslash in a word or in
-- double quotes, or in a comment.
pub data State : Type 0 where
  between word single_quotes double_quotes escape quoted_escape comment : State

-- `whitespace`
abbrev pub is_blank : ℕ → Bool
is_blank c = c == 32 || c == 9 || c == 13 || c == newline

-- `token or quoted`
abbrev pub has_token : Text → Bool → Bool
has_token [] is_quoted = is_quoted
has_token (c ∷ token) is_quoted = true

abbrev pub emit : Text → Bool → Result (List Text) → Result (List Text)
emit token is_quoted rest = do
  tokens ← rest
  ok (if has_token token is_quoted then token ∷ tokens else tokens)

-- The loop over the characters, with the token so far and whether it was quoted.
unfoldable pub split_loop : Bool → State → Text → Bool → Text → Result (List Text)
split_loop comments between token is_quoted [] = emit token is_quoted (ok [])
split_loop comments between token is_quoted (c ∷ s) =
    let next = split_loop comments between [] false s in
    let blank = emit token is_quoted next in
    let skipped = split_loop comments comment token is_quoted s in
    let escaped = split_loop comments escape token is_quoted s in
    let single = split_loop comments single_quotes token is_quoted s in
    let double = split_loop comments double_quotes token is_quoted s in
    let started = split_loop comments word (c ∷ []) is_quoted s in
    if is_blank c
    then blank
    else if comments && c == b'#'
    then skipped
    else if c == b'\\'
    then escaped
    else if c == 39
    then single
    else if c == b'"'
    then double
    else started
split_loop comments word token is_quoted [] = emit token is_quoted (ok [])
split_loop comments word token is_quoted (c ∷ s) =
    let ended = emit token is_quoted (split_loop comments between [] false s) in
    let skipped = emit token is_quoted (split_loop comments comment [] false s) in
    let single = split_loop comments single_quotes token is_quoted s in
    let double = split_loop comments double_quotes token is_quoted s in
    let escaped = split_loop comments escape token is_quoted s in
    let longer = split_loop comments word (token ++ c ∷ []) is_quoted s in
    if is_blank c
    then ended
    else if comments && c == b'#'
    then skipped
    else if c == 39
    then single
    else if c == b'"'
    then double
    else if c == b'\\'
    then escaped
    else longer
split_loop comments single_quotes token is_quoted [] =
    err (value_error (codes "No closing quotation"))
split_loop comments single_quotes token is_quoted (c ∷ s) =
    let closed = split_loop comments word token true s in
    let longer = split_loop comments single_quotes (token ++ c ∷ []) true s in
    if c == 39 then closed else longer
split_loop comments double_quotes token is_quoted [] =
    err (value_error (codes "No closing quotation"))
split_loop comments double_quotes token is_quoted (c ∷ s) =
    let closed = split_loop comments word token true s in
    let escaped = split_loop comments quoted_escape token true s in
    let longer = split_loop comments double_quotes (token ++ c ∷ []) true s in
    if c == b'"' then closed else if c == b'\\' then escaped else longer
split_loop comments escape token is_quoted [] = err (value_error (codes "No escaped character"))
split_loop comments escape token is_quoted (c ∷ s) =
    split_loop comments word (token ++ c ∷ []) is_quoted s
split_loop comments quoted_escape token is_quoted [] =
    err (value_error (codes "No escaped character"))
split_loop comments quoted_escape token is_quoted (c ∷ s) =
    let kept = if c == b'\\' || c == b'"' then token ++ c ∷ [] else token ++ b'\\' ∷ c ∷ [] in
    split_loop comments double_quotes kept is_quoted s
split_loop comments comment token is_quoted [] = emit token is_quoted (ok [])
split_loop comments comment token is_quoted (c ∷ s) =
    let next = split_loop comments between token is_quoted s in
    let more = split_loop comments comment token is_quoted s in if c == newline then next else more

-- `shlex.split(s, comments=comments)`
unfoldable pub split : Bool → Text → Result (List Text)
unfolding split_loop
split comments s = split_loop comments between [] false s

-- The characters that need no quotes.
unfoldable pub is_safe : ℕ → Bool
is_safe c =
    is_word c
    || c == b'@'
    || c == b'%'
    || c == b'+'
    || c == b'='
    || c == b':'
    || c == b','
    || c == b'.'
    || c == b'/'
    || c == b'-'

unfoldable pub all_safe : Text → Bool
unfolding is_safe
all_safe [] = true
all_safe (c ∷ s) = is_safe c && all_safe s

-- `s.replace("'", "'\"'\"'")`
unfoldable pub replace_quotes : Text → Text
replace_quotes [] = []
replace_quotes (c ∷ s) =
    let rest = replace_quotes s in if c == 39 then 39 ∷ b'"' ∷ 39 ∷ b'"' ∷ 39 ∷ rest else c ∷ rest

-- `shlex.quote`
unfoldable pub quote : Text → Text
unfolding replace_quotes all_safe
quote [] = 39 ∷ 39 ∷ []
quote (c ∷ s) = if all_safe (c ∷ s) then c ∷ s else 39 ∷ (replace_quotes (c ∷ s) ++ 39 ∷ [])

-- `shlex.join`
unfoldable pub join : List Text → Text
unfolding quote
join [] = []
join (s ∷ []) = quote s
join (s ∷ t ∷ ts) = quote s ++ 32 ∷ join (t ∷ ts)
