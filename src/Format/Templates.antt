-- ===== src/Format/Templates.antt =====
-- Templates by their parts, and what formatting makes of them.
use mathlib.Core.Path.{subst}
use worker_ng.Base.{
  ℕ, ◌≡◌, ◌≢◌, refl, sym, ap, ◌∙◌, ==_iff, append-nil, Bool, false, ◌||◌, List, [], ◌∷◌, ◌++◌,
  if◌then◌else◌, ◌==◌, Bool-cases, inl, inr, arith, All, append_assoc,
}
use worker_ng.Text.{Text}
use worker_ng.Dict.{Dict}
use worker_ng.Errors.{Result, ok, ◌>>=◌, >>=-assoc, >>=-ok}
use worker_ng.Format.{outside, inside, get_value, prepend, substituted, format_loop, format}

pub data Part : Type 0 where
  literal : Text → Part
  field : Text → Part

abbrev pub is_brace : ℕ → Bool
is_brace c = c == b'{' || c == b'}'

-- Plain text, with its braces doubled.
unfoldable pub escape : Text → Text
escape [] = []
escape (c ∷ s) = let rest = escape s in if is_brace c then c ∷ c ∷ rest else c ∷ rest

unfoldable pub template : List Part → Text
unfolding escape
template [] = []
template (literal s ∷ ps) = escape s ++ template ps
template (field name ∷ ps) = b'{' ∷ (name ++ b'}' ∷ template ps)

-- The parts put together, up to the first field that has no value.
unfoldable pub render : Dict → List Part → Result Text
render params [] = ok []
render params (literal s ∷ ps) = do rest ← render params ps; ok (s ++ rest)
render params (field name ∷ ps) = substituted (get_value params name) (render params ps)

abbrev pub HasNoBrace : Text → Type 0
HasNoBrace = All (λ c. is_brace c ≡ false)

abbrev pub IsName : Part → Type 0
IsName (literal s) = Unit
IsName (field name) = (name ≢ []) × HasNoBrace name

module _ (params : Dict) where
  -- What the scan makes of one character of plain text.
  Kept : Text → Text → ℕ → Type 0
  Kept s rest c =
      format_loop params outside (escape (c ∷ s) ++ rest)
      ≡ prepend c (format_loop params outside (escape s ++ rest))

  kept : (c : ℕ) (s rest : Text) → Kept s rest c
  unfolding Kept format_loop escape
  kept c s rest = elim (Bool-cases (c == b'{')) [
    | inl e ↦ subst (Kept s rest) (sym ((==_iff c b'{').0 e)) refl
    | inr e ↦ elim (Bool-cases (c == b'}')) [
      | inl f ↦ subst (Kept s rest) (sym ((==_iff c b'}').0 f)) refl
      | inr f ↦ rw (e, f) (rw (e, f) refl)
    ]
  ]

  format_loop-escape :
      (s rest : Text)
      → format_loop params outside (escape s ++ rest)
        ≡ (format_loop params outside rest >>= (λ r. ok (s ++ r)))
  unfolding Kept format_loop escape
  format_loop-escape [] rest = sym (>>=-ok (format_loop params outside rest))
  format_loop-escape (c ∷ s) rest =
      kept c s rest
      ∙ (ap (prepend c) (format_loop-escape s rest)
          ∙ >>=-assoc (format_loop params outside rest) (λ r. ok (s ++ r)) (λ r. ok (c ∷ r)))

not_close : (c : ℕ) → is_brace c ≡ false → (c == b'}') ≡ false
not_close c h = ground arith

not_open : (c : ℕ) → is_brace c ≡ false → (c == b'{') ≡ false
not_open c h = ground arith

format_loop-inside :
    (params : Dict) (seen name rest : Text)
    → HasNoBrace name
    → format_loop params (inside seen) (name ++ b'}' ∷ rest)
      ≡ substituted (get_value params (seen ++ name)) (format_loop params outside rest)
unfolding format_loop
format_loop-inside params seen [] rest h = rw append-nil
format_loop-inside params seen (c ∷ name) rest (hc, h) =
    rw (not_close c hc, format_loop-inside params (seen ++ c ∷ []) name rest h, append_assoc) refl

format_loop-field :
    (params : Dict) (name rest : Text)
    → IsName (field name)
    → format_loop params outside (b'{' ∷ (name ++ b'}' ∷ rest))
      ≡ substituted (get_value params name) (format_loop params outside rest)
unfolding format_loop
format_loop-field params [] rest (nonempty, _) = absurd (nonempty refl)
format_loop-field params (c ∷ name) rest (_, (hc, h)) =
    rw (not_open c hc, not_close c hc) (format_loop-inside params (c ∷ []) name rest h)

-- Formatting a template puts the values of its fields and its plain text together in order, and
-- raises for the first field that has no value.
pub format-template :
    (params : Dict) (ps : List Part)
    → All IsName ps
    → format params (template ps) ≡ render params ps
unfolding format template render
format-template params [] h = unfold format_loop in refl
format-template params (literal s ∷ ps) (_, h) =
    rw (format_loop-escape params s (template ps), format-template params ps h) refl
format-template params (field name ∷ ps) (is_name, h) =
    rw (format_loop-field params name (template ps) is_name, format-template params ps h) refl
