-- ===== src/DataSources/Range/Values.antt =====
-- What `RangeDataSource` delivers for an accepted expression.
use mathlib.Core.Path.{subst}
use mathlib.Core.List.{append_cancel_right}
use worker_ng.Base.{
  ℕ, ◌+◌, ◌-◌, ◌≡◌, refl, inl, inr, false, List, [], ◌∷◌, ◌++◌, append-nil, arith, some, ==_iff,
}
use worker_ng.Text.{Text, codes, split, text_eq}
use worker_ng.Text.Numbers.{is_digit, AllDigits, value_from, int, int-digits, int-digits_newline}
use worker_ng.Errors.{ok}
use worker_ng.Regex.{Groups, first, get_group}
use worker_ng.Regex.Language.{Matches}
use worker_ng.Regex.Complete.{IsProper}
use worker_ng.Regex.First.{re_match-none, re_match-some}
use worker_ng.DataSources.Range.{interval_expr, range, count_up, read_range}
use worker_ng.DataSources.Range.Grammar.{
  Item, single, interval, IsNumber, IsEnd, IsNumber-of_match, match_of_number,
}

-- The numbers that a part stands for.
abbrev pub item_values : Item → List ℕ
item_values (single ds) = value_from 0 ds ∷ []
item_values (interval ds es) = range (value_from 0 ds) (value_from 0 es + 1)

-- A text that does not go on with a digit.
abbrev NoDigit : Text → Type 0
NoDigit [] = Unit
NoDigit (c ∷ s) = is_digit c ≡ false

digits_unique :
    (ds es s t : Text)
    → AllDigits ds
    → AllDigits es
    → NoDigit s
    → NoDigit t
    → ds ++ s ≡ es ++ t
    → (ds ≡ es) × (s ≡ t)
digits_unique [] [] s t hd he hs ht e = (refl, e)
digits_unique [] (c ∷ es) [] t hd he hs ht e = cc
digits_unique [] (c ∷ es) (d ∷ s) t hd he hs ht e = cc
digits_unique (c ∷ ds) [] s [] hd he hs ht e = cc
digits_unique (c ∷ ds) [] s (d ∷ t) hd he hs ht e = cc
digits_unique (c ∷ ds) (d ∷ es) s t hd he hs ht e =
    let (p, q) = digits_unique ds es s t hd.1 he.1 hs ht (cc) in (cc, q)

IsEnd-NoDigit : (t : Text) → IsEnd t → NoDigit t
IsEnd-NoDigit [] h = tt
IsEnd-NoDigit (c ∷ t) (inl e) = cc
IsEnd-NoDigit (c ∷ t) (inr e) = ground arith

abbrev interval_groups : Text → Text → Groups
interval_groups ds es = (codes "1", ds) ∷ (codes "2", es) ∷ []

-- What `^(\d+)-(\d+)$` matches, and its two groups.
interval_of_match :
    (s : Text) (gs : Groups) (t : Text)
    → Matches interval_expr s gs t
    → (ds : Text) × (es : Text) × IsNumber ds
      × IsNumber es
      × IsEnd t
      × (gs ≡ interval_groups ds es)
      × (s ≡ ds ++ b'-' ∷ (es ++ t))
interval_of_match s gs t
      (
        u,
        g,
        h,
        (m, g1, one, split1, e1),
        (
          v,
          g2,
          h2,
          (c, hc, e, e2),
          (w, g3, h3, (m', g4, two, split2, e3), (e4, e5, at_end), e6),
          e7,
        ),
        e8,
      ) =
    let (ds, first, split, none1) = IsNumber-of_match s g1 u one in
    let (es, second, split', none2) = IsNumber-of_match v g4 w two in
    let same1 : m ≡ ds = append_cancel_right m ds u (cc) in
    let same2 : m' ≡ es = append_cancel_right m' es w (cc) in
    (
      ds,
      es,
      first,
      second,
      subst IsEnd e4 at_end,
      cc (e8, e1, none1, same1, e7, e2, e6, e3, none2, same2, e5),
      cc (split, e, (==_iff c b'-').0 hc, split', e4),
    )

interval_match :
    (ds es t : Text)
    → IsNumber ds
    → IsNumber es
    → IsEnd t
    → Matches interval_expr (ds ++ b'-' ∷ (es ++ t)) (interval_groups ds es) t
interval_match ds es t hd he ht = (
  b'-' ∷ (es ++ t),
  (codes "1", ds) ∷ [],
  (codes "2", es) ∷ [],
  (ds, [], match_of_number ds (b'-' ∷ (es ++ t)) hd, refl, refl),
  (
    es ++ t,
    [],
    (codes "2", es) ∷ [],
    (b'-', refl, refl, refl),
    (
      t,
      (codes "2", es) ∷ [],
      [],
      (es, [], match_of_number es t he, refl, refl),
      (refl, refl, ht),
      refl,
    ),
    refl,
  ),
  refl,
)

-- The dash stands behind the first digits, so it cannot be missed.
no_interval_in_number :
    (ds t : Text) (gs : Groups) (u : Text)
    → IsNumber ds
    → IsEnd t
    → ¬ Matches interval_expr (ds ++ t) gs u
no_interval_in_number ds t gs u hd ht h =
    let (ds', es', hd', he', hu, _, e) = interval_of_match (ds ++ t) gs u h in
    let (_, f) =
      digits_unique ds ds' t (b'-' ∷ (es' ++ u)) hd.1 hd'.1 (IsEnd-NoDigit t ht) refl e in
    dash_not_end t (es' ++ u) ht f
  where
    dash_not_end : (t s : Text) → IsEnd t → t ≡ b'-' ∷ s → ⊥
    dash_not_end t s (inl p) q = cc
    dash_not_end t s (inr p) q = ground arith

IsNumber-int : (ds t : Text) → IsNumber ds → IsEnd t → int (ds ++ t) ≡ some (value_from 0 ds)
IsNumber-int ds t (h, hs) (inl e) = rw (e, append-nil) (int-digits ds h hs)
IsNumber-int ds t (h, hs) (inr e) = rw e (int-digits_newline ds h hs)

interval-IsProper : IsProper interval_expr
interval-IsProper = ((tt, tt), (tt, ((tt, tt), tt)))

range_one : (n : ℕ) → range n (n + 1) ≡ n ∷ []
unfolding range count_up
range_one n = let e : (n + 1) - n ≡ 1 = omega arith in rw e refl

-- A single number is read as the range of itself alone.
pub read_range-single :
    (ds t : Text) → IsNumber ds → IsEnd t → read_range (ds ++ t) ≡ ok (value_from 0 ds ∷ [])
unfolding read_range
read_range-single ds t hd ht = rw (
  re_match-none interval_expr (ds ++ t) (λ gs u. no_interval_in_number ds t gs u hd ht),
  IsNumber-int ds t hd ht,
  range_one,
)

pub read_range-interval :
    (ds es t : Text)
    → IsNumber ds
    → IsNumber es
    → IsEnd t
    → read_range (ds ++ b'-' ∷ (es ++ t)) ≡ ok (range (value_from 0 ds) (value_from 0 es + 1))
unfolding read_range get_group text_eq
read_range-interval ds es t hd he ht =
    let s = ds ++ b'-' ∷ (es ++ t) in
    let (m, e, found) =
      re_match-some interval_expr s (interval_groups ds es) t interval-IsProper
        (interval_match ds es t hd he ht) in
    let (ds', es', hd', he', ht', groups, f) = interval_of_match s m.groups m.rest found in
    let (p, tails) =
      digits_unique ds ds' (b'-' ∷ (es ++ t)) (b'-' ∷ (es' ++ m.rest)) hd.1 hd'.1 refl refl f in
    let (q, _) =
      digits_unique es es' t m.rest he.1 he'.1 (IsEnd-NoDigit t ht) (IsEnd-NoDigit m.rest ht')
        (cc) in
    let same : m.groups ≡ interval_groups ds es = cc in
    rw (e, same, int-digits ds hd.0 hd.1, int-digits es he.0 he.1)
