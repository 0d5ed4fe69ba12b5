-- ===== src/Regex.antt =====
-- The regular expressions of `re` that the scripts use, with a backtracking matcher: all matches at
-- the front of a text, in the order in which Python tries them, so that the first is Python's.
-- `\d` and `\w` are read as the ASCII digits, letters and underscore; `\s` is all of Unicode's.
pub mod Language
pub mod Correct
pub mod Complete
pub mod First
use worker_ng.Base.{
  ℕ, zero, suc, ◌≡◌, Bool, true, false, ◌&&◌, ◌||◌, Option, none, some, List, [], ◌∷◌, ◌++◌, map,
  leb, ◌==◌, if◌then◌else◌, concat, length,
}
use worker_ng.Text.{Text, newline, text_eq}
use worker_ng.Text.Numbers.{is_digit}

abbrev pub CharClass : Type 0
CharClass = ℕ → Bool

-- Named groups and what they matched.
abbrev pub Groups : Type 0
Groups = List (Text × Text)

pub data Regex : Type 0 where
  chr : CharClass → Regex
  star : CharClass → Regex
  seq : Regex → Regex → Regex
  opt : Regex → Regex
  many : Regex → Regex
  group : Text → Regex → Regex
  dollar : Regex
  skip : Regex

-- `r+` for a class.
abbrev pub plus : CharClass → Regex
plus p = seq (chr p) (star p)

abbrev pub only : ℕ → CharClass
only c d = d == c

-- A literal text.
abbrev pub word : Text → Regex
word [] = skip
word (c ∷ s) = seq (chr (only c)) (word s)

abbrev pub repeat : ℕ → CharClass → Regex
repeat zero p = skip
repeat (suc n) p = seq (chr p) (repeat n p)

infixr 60 ◌⋯◌
abbrev pub ◌⋯◌ : Regex → Regex → Regex
a ⋯ b = seq a b

abbrev pub is_alpha : CharClass
is_alpha c = (leb b'a' c && leb c b'z') || (leb b'A' c && leb c b'Z')

-- `\w`
abbrev pub is_word : CharClass
is_word c = is_alpha c || is_digit c || c == b'_'

-- `.`
abbrev pub is_any : CharClass
is_any c = if c == newline then false else true

pub record Match : Type 0 where
  pub consumed : Text
  pub groups : Groups
  pub rest : Text

abbrev pub stop : Text → Match
stop s = record { consumed = []; groups = []; rest = s }

abbrev pub step : ℕ → Match → Match
step c m = record { consumed = c ∷ m.consumed; groups = m.groups; rest = m.rest }

abbrev pub join : Match → Match → Match
join m n = record {
  consumed = m.consumed ++ n.consumed;
  groups = m.groups ++ n.groups;
  rest = n.rest;
}

abbrev pub named : Text → Match → Match
named name m = record {
  consumed = m.consumed;
  groups = (name, m.consumed) ∷ m.groups;
  rest = m.rest;
}

run_chr : CharClass → Text → List Match
run_chr p [] = []
run_chr p (c ∷ s) = if p c then step c (stop s) ∷ [] else []

run_star : CharClass → Text → List Match
run_star p [] = stop [] ∷ []
run_star p (c ∷ s) =
    let longer = map (step c) (run_star p s) ++ stop (c ∷ s) ∷ [] in
    let none_left = stop (c ∷ s) ∷ [] in if p c then longer else none_left

-- `$`: at the end, or before a newline at the end.
run_dollar : Text → List Match
run_dollar [] = stop [] ∷ []
run_dollar (c ∷ []) = if c == newline then stop (c ∷ []) ∷ [] else []
run_dollar (c ∷ d ∷ s) = []

abbrev pub then_run : (Text → List Match) → List Match → List Match
then_run k ms = concat (map (λ m. map (join m) (k m.rest)) ms)

-- A greedy repetition, with fuel for the rounds.
run_many : (Text → List Match) → ℕ → Text → List Match
run_many r zero s = stop s ∷ []
run_many r (suc fuel) s = then_run (run_many r fuel) (r s) ++ stop s ∷ []

unfoldable pub run : Regex → Text → List Match
unfolding run_chr run_star run_dollar run_many
run (chr p) s = run_chr p s
run (star p) s = run_star p s
run (seq a b) s = then_run (run b) (run a s)
run (opt a) s = run a s ++ stop s ∷ []
run (many a) s = run_many (run a) (length s) s
run (group name a) s = map (named name) (run a s)
run dollar s = run_dollar s
run skip s = stop s ∷ []

abbrev pub first {ℓ} : {A : Type ℓ} → List A → Option A
first [] = none
first (x ∷ xs) = some x

-- `re.match(r, s)`
abbrev pub re_match : Regex → Text → Option Match
re_match r s = first (run r s)

-- `re.search(r, s)`: the match at the first position that has one.
unfoldable pub re_search : Regex → Text → Option Match
re_search r [] = re_match r []
re_search r (c ∷ s) =
    let later = re_search r s in elim (re_match r (c ∷ s)) [ some m ↦ some m | none ↦ later ]

-- `match.group(name)`; a group that is not there reads as empty.
unfoldable pub get_group : Text → Groups → Text
get_group name [] = []
get_group name ((n, s) ∷ gs) = if text_eq n name then s else get_group name gs
