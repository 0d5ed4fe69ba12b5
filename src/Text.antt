-- ===== src/Text.antt =====
-- Python's `str`, as the list of its code points, with the methods that the scripts call.
pub mod Equality
pub mod Lines
pub mod Numbers
pub mod Splitting
use Prim.Native.Char.{code}
use Prim.Native.String.{String}
use worker_ng.Base.{
  ℕ, suc, ◌≡◌, refl, Bool, true, false, ◌&&◌, ◌||◌, List, [], ◌∷◌, ◌++◌, leb, ◌==◌, if◌then◌else◌,
  arith,
}

abbrev pub Text : Type 0
Text = List ℕ

-- The code points of a literal.
abbrev pub codes : String → Text
codes String.[] = []
codes (String.◌∷◌ c s) = code c ∷ codes s

abbrev pub newline : ℕ
newline = 10

abbrev pub carriage_return : ℕ
carriage_return = 13

-- `str.isspace` of one character, which is also `\s` of `re`: the whole of Unicode's table.
unfoldable pub is_space : ℕ → Bool
is_space c =
    (leb 9 c && leb c 13)
    || (leb 28 c && leb c 32)
    || c == 0x85
    || c == 0xa0
    || c == 0x1680
    || (leb 0x2000 c && leb c 0x200a)
    || c == 0x2028
    || c == 0x2029
    || c == 0x202f
    || c == 0x205f
    || c == 0x3000

unfoldable pub text_eq : Text → Text → Bool
text_eq [] [] = true
text_eq [] (d ∷ t) = false
text_eq (c ∷ s) [] = false
text_eq (c ∷ s) (d ∷ t) = c == d && text_eq s t

-- `s.startswith(prefix)`, the prefix first.
unfoldable pub starts_with : Text → Text → Bool
starts_with [] s = true
starts_with (p ∷ ps) [] = false
starts_with (p ∷ ps) (c ∷ s) = p == c && starts_with ps s

unfoldable pub lstrip : Text → Text
lstrip [] = []
lstrip (c ∷ s) = let rest = lstrip s in if is_space c then rest else c ∷ s

unfoldable pub keep_or_drop : ℕ → Text → Text
keep_or_drop c [] = if is_space c then [] else c ∷ []
keep_or_drop c (d ∷ s) = c ∷ d ∷ s

unfoldable pub rstrip : Text → Text
unfolding keep_or_drop
rstrip [] = []
rstrip (c ∷ s) = keep_or_drop c (rstrip s)

unfoldable pub strip : Text → Text
unfolding lstrip rstrip
strip s = rstrip (lstrip s)

prepend : ℕ → List Text → List Text
prepend c [] = (c ∷ []) ∷ []
prepend c (l ∷ ls) = (c ∷ l) ∷ ls

-- `s.split(sep)` for a separator of one character: at least one part, empty parts kept.
unfoldable pub split : ℕ → Text → List Text
unfolding prepend
split sep [] = [] ∷ []
split sep (c ∷ s) = let rest = split sep s in if c == sep then [] ∷ rest else prepend c rest

-- Reading in text mode: `\r\n` and `\r` become `\n`.
unfoldable pub universal_newlines : Text → Text
universal_newlines [] = []
universal_newlines (c ∷ []) = (if c == carriage_return then newline else c) ∷ []
universal_newlines (c ∷ d ∷ s) =
    let whole = universal_newlines (d ∷ s) in
    let skipped = newline ∷ universal_newlines s in
    let translated = newline ∷ whole in
    let kept = c ∷ whole in
    if c == carriage_return then (if d == newline then skipped else translated) else kept

-- The lines of a text, each with its newline; the last may lack one.
unfoldable pub lines : Text → List Text
unfolding prepend
lines [] = []
lines (c ∷ s) = let rest = lines s in if c == newline then (c ∷ []) ∷ rest else prepend c rest

-- `for line in file`
unfoldable pub read_lines : Text → List Text
unfolding lines universal_newlines
read_lines s = lines (universal_newlines s)
