-- ===== src/Logs/Report/Clients/Tables.antt =====
-- What a lookup finds in the table of clients after its columns are filled.
use worker_ng.Base.{
  ℕ, ◌≡◌, refl, Option, none, some, List, [], ◌∷◌, if◌then◌else◌, Bool-cases, inl, inr, arith, ap,
  ◌∙◌,
}
use worker_ng.Text.{Text, text_eq}
use worker_ng.Text.Equality.{text_eq_iff}
use worker_ng.Dict.{lookup}
use worker_ng.Dict.Laws.{UniqueKeys}
use worker_ng.Logs.Report.{is_some}
use worker_ng.Logs.Report.Clients.{
  ClientRow, ClientTable, Column, blank_row, insert_column, set_cell, set_cells, described,
}

module _ {S T : Type 0} where
  abbrev pub zeroed : Column S T → Option (ClientRow S T) → Option (ClientRow S T)
  zeroed column none = none
  zeroed column (some r) = some (column 0 r)

  abbrev pub or_blank_row : Option (ClientRow S T) → ClientRow S T
  or_blank_row none = blank_row
  or_blank_row (some r) = r

  -- With the count of a group, where there is one.
  abbrev pub set_found : Column S T → Option ℕ → Option (ClientRow S T) → Option (ClientRow S T)
  set_found column none o = o
  set_found column (some n) o = some (column n (or_blank_row o))

  pub lookup-insert_column :
      (column : Column S T) (c : Text) (t : ClientTable S T)
      → lookup c (insert_column column t) ≡ zeroed column (lookup c t)
  unfolding lookup insert_column
  lookup-insert_column column c [] = refl
  lookup-insert_column column c ((d, r) ∷ t) = elim (Bool-cases (text_eq d c)) [
    | inl e ↦ rw e refl
    | inr e ↦ rw e (lookup-insert_column column c t)
  ]

  lookup-set_cell :
      (column : Column S T) (c d : Text) (n : ℕ) (t : ClientTable S T)
      → lookup c (set_cell column d n t)
        ≡ (if text_eq d c then some (column n (or_blank_row (lookup c t))) else lookup c t)
  unfolding lookup set_cell
  lookup-set_cell column c d n [] = refl
  lookup-set_cell column c d n ((i, r) ∷ t) =
      ground
        (arith, text_eq_iff d c, text_eq_iff i c, text_eq_iff i d, lookup-set_cell column c d n t)

  pub lookup-set_cells :
      (column : Column S T) (c : Text) (counts : List (Text × ℕ)) (t : ClientTable S T)
      → UniqueKeys counts
      → lookup c (set_cells column counts t) ≡ set_found column (lookup c counts) (lookup c t)
  unfolding lookup set_cells
  lookup-set_cells column c [] t h = refl
  lookup-set_cells column c ((d, n) ∷ counts) t (h, hs) = elim (Bool-cases (text_eq d c)) [
    | inl e ↦ ground (
      arith,
      lookup-set_cells column c counts (set_cell column d n t) hs,
      lookup-set_cell column c d n t,
      text_eq_iff d c,
    )
    | inr e ↦ ground (
      arith,
      lookup-set_cells column c counts (set_cell column d n t) hs,
      lookup-set_cell column c d n t,
      e,
    )
  ]

  pub is_some-lookup-described :
      (c : Text) (rows : List (Text × S)) (totals : List (Text × T))
      → is_some (lookup c (described rows totals)) ≡ is_some (lookup c rows)
  unfolding lookup described
  is_some-lookup-described c [] totals = refl
  is_some-lookup-described c ((d, s) ∷ rows) totals = elim (Bool-cases (text_eq d c)) [
    | inl e ↦ rw e refl
    | inr e ↦ rw e (is_some-lookup-described c rows totals)
  ]

  -- A column is inserted and then filled from the counts.
  pub lookup-set_cells-insert_column :
      (column : Column S T) (c : Text) (counts : List (Text × ℕ)) (t : ClientTable S T)
      → UniqueKeys counts
      → lookup c (set_cells column counts (insert_column column t))
        ≡ set_found column (lookup c counts) (zeroed column (lookup c t))
  lookup-set_cells-insert_column column c counts t unique =
      lookup-set_cells column c counts (insert_column column t) unique
      ∙ ap (set_found column (lookup c counts)) (lookup-insert_column column c t)
