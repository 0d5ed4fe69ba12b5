-- ===== src/Workfile/Resumed.antt =====
-- Resuming a resumed job: what the parser reads from a file that `filter_workfile` wrote.
use mathlib.Core.Path.{subst}
use worker_ng.Base.{
  ℕ, suc, ◌+◌, ◌≡◌, ◌≢◌, refl, false, some, List, [], ◌∷◌, All, All-append, init, map, elem,
  Bool-cases, inl, inr,
}
use worker_ng.Text.{
  Text, newline, carriage_return, text_eq, strip, is_space, lines, read_lines, universal_newlines,
}
use worker_ng.Text.Lines.{Lacks, lines-append_newline, universal_newlines_lem}
use worker_ng.Workfile.{Output, filter_workfile, parse_loop, parse, print}
use worker_ng.Workfile.Create.{Row, work_item, create_workfile}
use worker_ng.Workfile.Joined.{IsSeparator, HasNoSeparator, parse_loop-joined}
use worker_ng.Workfile.Parsing.{item_body, work_item-print}
use worker_ng.Workfile.Filtering.{selected, joined_all, filter_workfile-create_workfile}

-- An item whose printed text has no separator line.
abbrev PrintsClean : Text → Text → Type 0
PrintsClean sep t = HasNoSeparator sep (print t)

text_eq-blank : (sep : Text) → sep ≢ [] → text_eq (strip (newline ∷ [])) sep ≡ false
unfolding text_eq strip is_space
text_eq-blank [] h = absurd (h refl)
text_eq-blank (c ∷ sep) h = refl

-- Printing an item once more adds a blank line.
print-PrintsClean :
    (sep b : Text) → sep ≢ [] → HasNoSeparator sep (print b) → PrintsClean sep (print b)
print-PrintsClean sep b h clean = rw (lines-append_newline b (newline ∷ [])) (
    All-append _ (lines (print b)) (lines (newline ∷ [])) clean
      (unfold lines in (text_eq-blank sep h, tt)))

module _ (P : Text → Type 0) where
  All-selected : (ids : List ℕ) (i : ℕ) (ts : List Text) → All P ts → All P (selected ids i ts)
  unfolding selected
  All-selected ids i [] h = tt
  All-selected ids i (t ∷ ts) (h, hs) = elim (Bool-cases (elem (i + 1) ids)) [
    | inl e ↦ rw e (h, All-selected ids (suc i) ts hs)
    | inr e ↦ rw e (All-selected ids (suc i) ts hs)
  ]

  All-init : (ts : List Text) → All P ts → All P (init ts)
  All-init [] h = tt
  All-init (t ∷ []) h = tt
  All-init (t ∷ u ∷ ts) (h, hs) = (h, All-init (u ∷ ts) hs)

work_items-PrintsClean :
    (sep script : Text) (rows : List Row)
    → sep ≢ []
    → All (HasNoSeparator sep) (map (work_item script) rows)
    → All (PrintsClean sep) (map (work_item script) rows)
work_items-PrintsClean sep script [] h clean = tt
work_items-PrintsClean sep script (row ∷ rows) h (c, cs) = (
  rw work_item-print
      (print-PrintsClean sep (item_body script row) h (rw (← work_item-print script row) c)),
  work_items-PrintsClean sep script rows h cs,
)

map-print-clean :
    (sep : Text) (ts : List Text)
    → All (PrintsClean sep) ts
    → All (HasNoSeparator sep) (map print ts)
map-print-clean sep [] h = tt
map-print-clean sep (t ∷ ts) (h, hs) = (h, map-print-clean sep ts hs)

yields-joined_all :
    {sep : Text} (ts : List Text)
    → IsSeparator sep
    → All (PrintsClean sep) ts
    → Lacks carriage_return (joined_all sep ts)
    → (parse sep (joined_all sep ts)).yields ≡ init (map print ts)
unfolding parse read_lines
yields-joined_all [] h clean no_cr = unfold parse_loop lines universal_newlines in refl
yields-joined_all (t ∷ ts) h clean no_cr =
    rw (universal_newlines_lem _ no_cr, parse_loop-joined t ts h (map-print-clean _ (t ∷ ts) clean))

-- On the file that resuming a created job with the given item numbers writes, where no text holds a
-- carriage return and the separator, not empty, stands in no work item, the generator yields the
-- chosen work items but the last of them, in order, each with one more empty line at its end.
pub parse-filter_workfile :
    (sep script : Text) (row : Row) (rows : List Row) {out : Output} (ids : List ℕ)
    → create_workfile sep script (row ∷ rows) ≡ some out
    → sep ≢ []
    → IsSeparator sep
    → All (HasNoSeparator sep) (map (work_item script) (row ∷ rows))
    → Lacks carriage_return out.text
    → Lacks carriage_return (filter_workfile sep ids out.text).text
    → (parse sep (filter_workfile sep ids out.text).text).yields
      ≡ init (map print (selected ids 0 (init (map (work_item script) (row ∷ rows)))))
parse-filter_workfile sep script row rows {out} ids created nonempty separator clean no_cr no_cr' =
    let items = init (map (work_item script) (row ∷ rows)) in
    let written =
      filter_workfile-create_workfile sep script row rows created separator clean no_cr ids in
    let chosen_clean = All-selected (PrintsClean sep) ids 0 items (
      All-init (PrintsClean sep) (map (work_item script) (row ∷ rows))
        (work_items-PrintsClean sep script (row ∷ rows) nonempty clean)) in
    rw written (
      yields-joined_all (selected ids 0 items) separator chosen_clean
        (subst (λ (o : Output). Lacks carriage_return o.text) written no_cr'))
