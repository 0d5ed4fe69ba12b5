-- ===== src/DataSources/Range/Grammar.antt =====
-- The job array expressions that `_is_valid` accepts: one or more parts between commas, each a number
-- or two numbers with a dash between them, and at most one newline at the end.
use worker_ng.Base.{
  ℕ, zero, suc, ◌≡◌, ◌≢◌, ◌↔◌, ◌⊎◌, refl, ap, inl, inr, true, List, [], ◌∷◌, ◌++◌, append_assoc,
  arith, All, length, length-append, ◌<◌, ==_iff,
}
use worker_ng.Text.{Text, newline}
use worker_ng.Text.Numbers.{is_digit, AllDigits}
use worker_ng.Regex.{Groups, chr, plus, only, ◌⋯◌, Match, first, run}
use worker_ng.Regex.Language.{Matches, Rounds}
use worker_ng.Regex.Correct.{IsMatch, run-IsMatch}
use worker_ng.Regex.Complete.{IsProper, Found, run_complete}
use worker_ng.DataSources.Range.{bounds_expr, spec_expr, is_valid, matched}

-- A part of an expression, by the digits that spell it.
pub data Item : Type 0 where
  single : Text → Item
  interval : Text → Text → Item

abbrev pub IsNumber : Text → Type 0
IsNumber s = (s ≢ []) × AllDigits s

abbrev pub IsItem : Item → Type 0
IsItem (single ds) = IsNumber ds
IsItem (interval ds es) = IsNumber ds × IsNumber es

abbrev pub render_item : Item → Text
render_item (single ds) = ds
render_item (interval ds es) = ds ++ b'-' ∷ es

-- Further parts, a comma before each.
abbrev pub render_rest : List Item → Text
render_rest [] = []
render_rest (i ∷ is) = b',' ∷ (render_item i ++ render_rest is)

-- An expression with at least one part.
abbrev pub render : Item → List Item → Text
render i is = render_item i ++ render_rest is

abbrev pub IsEnd : Text → Type 0
IsEnd t = (t ≡ []) ⊎ (t ≡ newline ∷ [])

pub IsNumber-of_match :
    (s : Text) (gs : Groups) (t : Text)
    → Matches (plus is_digit) s gs t
    → (ds : Text) × IsNumber ds × (s ≡ ds ++ t) × (gs ≡ [])
IsNumber-of_match s gs t (u, g, h, (c, hc, e, n), (xs, hx, f, n'), split) =
    (c ∷ xs, (cc, (hc, hx)), cc, cc)

item_of_match :
    (s : Text) (gs : Groups) (t : Text)
    → Matches bounds_expr s gs t
    → (i : Item) × IsItem i × (s ≡ render_item i ++ t)
item_of_match s gs t (u, g, h, one, inr (e, _), _) =
    let (ds, is_number, split, _) = IsNumber-of_match s g u one in (single ds, is_number, cc)
item_of_match s gs t (u, g, h, one, inl (w, g', h', (c, hc, e, _), other, _), _) =
    let (ds, first, split, _) = IsNumber-of_match s g u one in
    let (es, second, split', _) = IsNumber-of_match w h' t other in
    (
      interval ds es,
      (first, second),
      cc (split, e, (==_iff c b'-').0 hc, split', append_assoc ds (b'-' ∷ es) t),
    )

items_of_Rounds :
    (n : ℕ) (s : Text) (gs : Groups) (t : Text)
    → Rounds (Matches (chr (only b',') ⋯ bounds_expr)) n s gs t
    → (is : List Item) × All IsItem is × (s ≡ render_rest is ++ t)
items_of_Rounds zero s gs t (e, _) = ([], tt, e)
items_of_Rounds (suc n) s gs t (u, g, h, (w, g', h', (c, hc, e, _), one, _), others, _) =
    let (i, is_item, split) = item_of_match w h' u one in
    let (is, are_items, split') = items_of_Rounds n u h t others in
    (
      i ∷ is,
      (is_item, are_items),
      cc (e, (==_iff c b',').0 hc, split, split', append_assoc (render_item i) (render_rest is) t),
    )

-- An accepted expression is made of parts.
is_valid_sound :
    (s : Text)
    → is_valid s ≡ true
    → (i : Item) × (is : List Item) × (t : Text) × IsItem i
      × All IsItem is
      × IsEnd t
      × (s ≡ render i is ++ t)
unfolding is_valid
is_valid_sound s h = from_matches (first_match (run spec_expr s) (run-IsMatch spec_expr s) h)
  where
    first_match :
        (ms : List Match)
        → All (IsMatch (Matches spec_expr) s) ms
        → matched (first ms) ≡ true
        → (gs : Groups) × (t : Text) × Matches spec_expr s gs t
    first_match [] _ h = cc
    first_match (m ∷ ms) ((_, found), _) h = (m.groups, m.rest, found)

    from_matches :
        (gs : Groups) × (t : Text) × Matches spec_expr s gs t
        → (i : Item) × (is : List Item) × (t : Text) × IsItem i
          × All IsItem is
          × IsEnd t
          × (s ≡ render i is ++ t)
    from_matches (gs, t, (u, g, h, one, (w, g', h', (n, others), (e, _, at_end), _), _)) =
        let (i, is_item, split) = item_of_match s g u one in
        let (is, are_items, split') = items_of_Rounds n u g' w others in
        (
          i,
          is,
          w,
          is_item,
          are_items,
          at_end,
          cc (split, split', append_assoc (render_item i) (render_rest is) w),
        )

pub match_of_number : (ds t : Text) → IsNumber ds → Matches (plus is_digit) (ds ++ t) [] t
match_of_number [] t (h, _) = absurd (h refl)
match_of_number (c ∷ ds) t (_, (hc, hs)) =
    (ds ++ t, [], [], (c, hc, refl, refl), (ds, hs, refl, refl), refl)

match_of_item : (i : Item) (t : Text) → IsItem i → Matches bounds_expr (render_item i ++ t) [] t
match_of_item (single ds) t h = (t, [], [], match_of_number ds t h, inr (refl, refl), refl)
match_of_item (interval ds es) t (hd, he) = rw append_assoc (
  b'-' ∷ (es ++ t),
  [],
  [],
  match_of_number ds (b'-' ∷ (es ++ t)) hd,
  inl (es ++ t, [], [], (b'-', refl, refl, refl), match_of_number es t he, refl),
  refl,
)

Rounds-of_items :
    (is : List Item) (t : Text)
    → All IsItem is
    → Rounds (Matches (chr (only b',') ⋯ bounds_expr)) (length is) (render_rest is ++ t) [] t
Rounds-of_items [] t h = (refl, refl)
Rounds-of_items (i ∷ is) t (h, hs) = rw append_assoc (
  render_rest is ++ t,
  [],
  [],
  (
    render_item i ++ (render_rest is ++ t),
    [],
    [],
    (b',', refl, refl, refl),
    match_of_item i (render_rest is ++ t) h,
    refl,
  ),
  Rounds-of_items is t hs,
  refl,
)

rounds_shrink :
    (s : Text) (g : Groups) (t : Text)
    → Matches (chr (only b',') ⋯ bounds_expr) s g t
    → length t < length s
rounds_shrink s g t (u, g', h', (c, hc, e, _), one, _) =
    let (i, is_item, split) = item_of_match u h' t one in
    omega (arith, ap length e, ap length split, length-append (render_item i) t)

spec-IsProper : IsProper spec_expr
spec-IsProper =
    (((tt, tt), (tt, (tt, tt))), ((((tt, ((tt, tt), (tt, (tt, tt))))), rounds_shrink), tt))

matched_of_Found :
    (ms : List Match) (gs : Groups) (t : Text) → Found ms gs t → matched (first ms) ≡ true
matched_of_Found [] gs t (m, i, _, _) = absurd i
matched_of_Found (x ∷ ms) gs t h = refl

is_valid_complete :
    (i : Item) (is : List Item) (t : Text)
    → IsItem i
    → All IsItem is
    → IsEnd t
    → is_valid (render i is ++ t) ≡ true
unfolding is_valid
is_valid_complete i is t hi his ht =
    matched_of_Found (run spec_expr (render i is ++ t)) [] t
      (run_complete spec_expr (render i is ++ t) [] t spec-IsProper (rw append_assoc whole))
  where
    whole : Matches spec_expr (render_item i ++ (render_rest is ++ t)) [] t
    whole = (
      render_rest is ++ t,
      [],
      [],
      match_of_item i (render_rest is ++ t) hi,
      (t, [], [], (length is, Rounds-of_items is t his), (refl, refl, ht), refl),
      refl,
    )

-- The expressions that `_is_valid` accepts are exactly those of one or more parts between commas,
-- each a number or two numbers with a dash between them, with at most a newline behind them.
pub is_valid_iff :
    (s : Text)
    → (is_valid s ≡ true) ↔ (
        (i : Item) × (is : List Item) × (t : Text) × IsItem i
        × All IsItem is
        × IsEnd t
        × (s ≡ render i is ++ t))
is_valid_iff s =
    (is_valid_sound s, λ (i, is, t, hi, his, ht, e). rw e (is_valid_complete i is t hi his ht))
