-- ===== src/Text/Lines.antt =====
-- Splitting into lines: nothing is lost, and text that ends in a newline splits apart there.
use worker_ng.Base.{
  ℕ, ◌≡◌, ◌≢◌, refl, false, List, [], ◌∷◌, ◌++◌, arith, All, concat, ◌==◌, Bool-cases, inl, inr,
}
use worker_ng.Text.{Text, newline, carriage_return, prepend, lines, universal_newlines, read_lines}

abbrev pub Lacks : ℕ → Text → Type 0
Lacks c = All (λ d. (d == c) ≡ false)

concat-prepend : (c : ℕ) (ls : List Text) → concat (prepend c ls) ≡ c ∷ concat ls
unfolding prepend
concat-prepend c [] = refl
concat-prepend c (l ∷ ls) = refl

pub concat-lines : (s : Text) → concat (lines s) ≡ s
unfolding lines
concat-lines [] = refl
concat-lines (c ∷ s) = ground (arith, concat-lines s, concat-prepend c (lines s))

lines-ne-nil : (a t : Text) → lines (a ++ newline ∷ t) ≢ []
unfolding lines prepend
lines-ne-nil [] t h = cc
lines-ne-nil (c ∷ a) t h = ground arith

prepend-append : (c : ℕ) (ls ms : List Text) → ls ≢ [] → prepend c (ls ++ ms) ≡ prepend c ls ++ ms
unfolding prepend
prepend-append c [] ms h = absurd (h refl)
prepend-append c (l ∷ ls) ms h = refl

-- A text that ends in a newline is split from what follows it.
pub lines-append_newline :
    (a t : Text) → lines ((a ++ newline ∷ []) ++ t) ≡ lines (a ++ newline ∷ []) ++ lines t
unfolding lines prepend
lines-append_newline [] t = refl
lines-append_newline (c ∷ a) t = elim (Bool-cases (c == newline)) [
  | inl e ↦ rw (e, lines-append_newline a t)
  | inr e ↦
      rw (e, lines-append_newline a t)
        (prepend-append c (lines (a ++ newline ∷ [])) (lines t) (lines-ne-nil a []))
]

-- A line without an inner newline is one line.
pub lines_of_line :
    (l : Text) → Lacks newline l → lines (l ++ newline ∷ []) ≡ (l ++ newline ∷ []) ∷ []
unfolding lines prepend
lines_of_line [] h = refl
lines_of_line (c ∷ l) (h, hs) = rw (h, lines_of_line l hs)

pub universal_newlines_lem : (s : Text) → Lacks carriage_return s → universal_newlines s ≡ s
unfolding universal_newlines
universal_newlines_lem [] h = refl
universal_newlines_lem (c ∷ []) (h, _) = rw h
universal_newlines_lem (c ∷ d ∷ s) (h, hs) = rw (h, universal_newlines_lem (d ∷ s) hs)

pub read_lines-append_newline :
    (a t : Text)
    → Lacks carriage_return ((a ++ newline ∷ []) ++ t)
    → read_lines ((a ++ newline ∷ []) ++ t) ≡ lines (a ++ newline ∷ []) ++ lines t
unfolding read_lines
read_lines-append_newline a t h = rw (universal_newlines_lem _ h) (lines-append_newline a t)
