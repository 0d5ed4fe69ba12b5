-- ===== src/Regex/First.antt =====
-- `re.match`: its result is a match of the language, and it has one where the language has one.
use worker_ng.Base.{◌≡◌, refl, none, some, List, [], ◌∷◌, All}
use worker_ng.Text.{Text}
use worker_ng.Regex.{Groups, Regex, Match, first, run, re_match}
use worker_ng.Regex.Language.{Matches}
use worker_ng.Regex.Correct.{IsMatch, run-IsMatch}
use worker_ng.Regex.Complete.{IsProper, Found, run_complete}

pub re_match-none :
    (r : Regex) (s : Text) → ((gs : Groups) (t : Text) → ¬ Matches r s gs t) → re_match r s ≡ none
re_match-none r s h = go (run r s) (run-IsMatch r s)
  where
    go : (ms : List Match) → All (IsMatch (Matches r) s) ms → first ms ≡ none
    go [] _ = refl
    go (m ∷ ms) ((_, found), _) = absurd (h m.groups m.rest found)

pub re_match-some :
    (r : Regex) (s : Text) (gs : Groups) (t : Text)
    → IsProper r
    → Matches r s gs t
    → (m : Match) × (re_match r s ≡ some m) × Matches r s m.groups m.rest
re_match-some r s gs t proper h = go (run r s) (run-IsMatch r s) (run_complete r s gs t proper h)
  where
    go :
        (ms : List Match)
        → All (IsMatch (Matches r) s) ms
        → Found ms gs t
        → (m : Match) × (first ms ≡ some m) × Matches r s m.groups m.rest
    go [] _ (m, i, _, _) = absurd i
    go (m ∷ ms) ((_, found), _) _ = (m, refl, found)
