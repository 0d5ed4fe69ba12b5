-- ===== src/Options/Headers.antt =====
-- The structure of a job script, apart from how either parser reads it: a shebang line, a header of
-- directives, comments and blank lines, and the script proper.
use worker_ng.Base.{
  ◌≡◌, refl, Bool, true, false, ◌||◌, Option, none, some, List, [], ◌∷◌, ◌++◌, keep, length,
  if◌then◌else◌, Bool-cases, inl, inr,
}
use worker_ng.Text.{Text, codes, starts_with, strip}
use worker_ng.Errors.{Result, ok, ◌>>=◌}
use worker_ng.Shlex
use worker_ng.Options.{drop, isspace}

abbrev pub is_header_line : Text → Text → Bool
is_header_line prefix line =
    starts_with prefix line || (starts_with (codes "#") line || isspace line)

-- The lines before the first that is no header line, and the lines from there on.
unfoldable pub header : Text → List Text → List Text
header prefix [] = []
header prefix (l ∷ ls) =
    let rest = header prefix ls in if is_header_line prefix l then l ∷ rest else []

unfoldable pub body : Text → List Text → List Text
body prefix [] = []
body prefix (l ∷ ls) = let rest = body prefix ls in if is_header_line prefix l then rest else l ∷ ls

abbrev pub shebang_of : List Text → Option Text
shebang_of [] = none
shebang_of (l ∷ ls) = if starts_with (codes "#!") l then some (strip l) else none

abbrev pub after_shebang : List Text → List Text
after_shebang [] = []
after_shebang (l ∷ ls) = if starts_with (codes "#!") l then ls else l ∷ ls

abbrev pub directive_lines : Text → List Text → List Text
directive_lines prefix ls = keep (starts_with prefix) (header prefix ls)

module _ (prefix : Text) where
  -- The arguments of one directive line.
  abbrev pub line_args : Text → Result (List Text)
  line_args line = Shlex.split true (drop (length prefix) line)

  -- The arguments of the directive lines, in order.
  unfoldable pub directive_args : List Text → Result (List Text)
  directive_args [] = ok []
  directive_args (l ∷ ls) = do new ← line_args l; rest ← directive_args ls; ok (new ++ rest)

-- The header and the script proper make up the file.
pub header-body : (prefix : Text) (ls : List Text) → header prefix ls ++ body prefix ls ≡ ls
unfolding header body
header-body prefix [] = refl
header-body prefix (l ∷ ls) = elim (Bool-cases (is_header_line prefix l)) [
  | inl e ↦ rw (e, header-body prefix ls)
  | inr e ↦ rw e refl
]

-- Whether a list has no element.
abbrev pub is_empty {ℓ} : {A : Type ℓ} → List A → Bool
is_empty [] = true
is_empty (x ∷ xs) = false
