-- ===== src/Workfile/Filtering.antt =====
-- What `filter_workfile` counts and writes, and what a second resume reads back from its output.
use worker_ng.Base.{
  length-map, ℕ, suc, ◌+◌, ◌≤◌, ◌<◌, ◌≡◌, refl, sym, ap, false, some, List, [], ◌∷◌, ◌++◌,
  append-nil, append_assoc, arith, All, length, init, map, elem, Bool-cases, inl, inr,
  if◌then◌else◌,
}
use worker_ng.Text.{Text, carriage_return}
use worker_ng.Text.Lines.{Lacks}
use worker_ng.Workfile.{Output, write_item, filter_loop, filter_workfile, parse, print}
use worker_ng.Workfile.Create.{Row, work_item, create_workfile}
use worker_ng.Workfile.Joined.{IsSeparator, HasNoSeparator, joined}
use worker_ng.Workfile.Parsing.{parse-create_workfile}

-- The items whose number, counted from `i + 1`, is among the chosen ones.
unfoldable pub selected : List ℕ → ℕ → List Text → List Text
selected item_ids i [] = []
selected item_ids i (item ∷ rest) =
    let others = selected item_ids (suc i) rest in
    if elem (i + 1) item_ids then item ∷ others else others

-- A work file of any number of items.
abbrev pub joined_all : Text → List Text → Text
joined_all sep [] = []
joined_all sep (b ∷ bs) = joined sep b bs

-- What the loop appends to an output that holds items already.
abbrev appended : Text → List Text → Text
appended sep [] = []
appended sep (b ∷ bs) = print sep ++ joined sep b bs

joined-appended : (sep b : Text) (bs : List Text) → joined sep b bs ≡ print b ++ appended sep bs
joined-appended sep b [] = sym (append-nil (print b))
joined-appended sep b (c ∷ bs) = refl

Output_eq :
    {m n : ℕ} {s t : Text}
    → m ≡ n
    → s ≡ t
    → ◌≡◌ {A = Output} (record { item_count = m; text = s }) (record { item_count = n; text = t })
Output_eq p q = cc

write_item-appended :
    (sep item : Text) (n : ℕ) (written : Text)
    → write_item sep item (record { item_count = suc n; text = written })
      ≡ record { item_count = suc (suc n); text = (written ++ print sep) ++ print item }
unfolding write_item
write_item-appended sep item n written = Output_eq (omega arith) (ground arith)

write_item-first :
    (sep item : Text)
    → write_item sep item (record { item_count = 0; text = [] })
      ≡ record { item_count = suc 0; text = print item }
unfolding write_item
write_item-first sep item = Output_eq (omega arith) refl

appended_step :
    (sep item written : Text) (bs : List Text)
    → ((written ++ print sep) ++ print item) ++ appended sep bs
      ≡ written ++ (print sep ++ joined sep item bs)
appended_step sep item written bs = rw joined-appended (simp append_assoc)

filter_loop-appended :
    (sep : Text) (ids : List ℕ) (i : ℕ) (items : List Text) (n : ℕ) (written : Text)
    → filter_loop sep ids i items (record { item_count = suc n; text = written }) ≡ record {
      item_count = suc n + length (selected ids i items);
      text = written ++ appended sep (selected ids i items);
    }
unfolding filter_loop selected
filter_loop-appended sep ids i [] n written = Output_eq (omega arith) (sym (append-nil written))
filter_loop-appended sep ids i (item ∷ rest) n written = elim (Bool-cases (elem (i + 1) ids)) [
  | inl e ↦
      rw (e, write_item-appended, filter_loop-appended sep ids (suc i) rest (suc n) _)
        (Output_eq (omega arith) (appended_step sep item written (selected ids (suc i) rest)))
  | inr e ↦ rw (e, filter_loop-appended sep ids (suc i) rest n written)
]

filter_loop-joined_all :
    (sep : Text) (ids : List ℕ) (i : ℕ) (items : List Text)
    → filter_loop sep ids i items (record { item_count = 0; text = [] }) ≡ record {
      item_count = length (selected ids i items);
      text = joined_all sep (selected ids i items);
    }
unfolding filter_loop selected
filter_loop-joined_all sep ids i [] = refl
filter_loop-joined_all sep ids i (item ∷ rest) = elim (Bool-cases (elem (i + 1) ids)) [
  | inl e ↦
      rw (e, write_item-first, filter_loop-appended sep ids (suc i) rest 0 (print item))
        (Output_eq (omega arith) (sym (joined-appended sep item (selected ids (suc i) rest))))
  | inr e ↦ rw (e, filter_loop-joined_all sep ids (suc i) rest)
]

-- On any file, `filter_workfile` counts and writes exactly the yielded items whose number is among
-- the chosen ones, in file order, with one separator line between two of them.
pub filter_workfile-joined_all :
    (sep : Text) (ids : List ℕ) (file : Text)
    → filter_workfile sep ids file ≡ record {
      item_count = length (selected ids 0 (parse sep file).yields);
      text = joined_all sep (selected ids 0 (parse sep file).yields);
    }
unfolding filter_workfile
filter_workfile-joined_all sep ids file = filter_loop-joined_all sep ids 0 (parse sep file).yields

length-init : {A : Type 0} (x : A) (xs : List A) → length (init (x ∷ xs)) ≡ length xs
length-init x [] = refl
length-init x (y ∷ xs) = ap suc (length-init y xs)

elem-lt : (i n : ℕ) (ids : List ℕ) → i ≤ n → All (λ k. n < k) ids → elem i ids ≡ false
unfolding elem
elem-lt i n [] le h = refl
elem-lt i n (k ∷ ids) le (h, hs) = ground (arith, elem-lt i n ids le hs)

-- Numbers past the last yielded item choose nothing.
selected-nil :
    (ids : List ℕ) (i n : ℕ) (items : List Text)
    → All (λ k. n < k) ids
    → i + length items ≤ n
    → selected ids i items ≡ []
unfolding selected
selected-nil ids i n [] h le = refl
selected-nil ids i n (item ∷ rest) h le =
    rw (elem-lt (i + 1) n ids (omega arith) h) (selected-nil ids (suc i) n rest h (omega arith))

module _ (sep script : Text) (row : Row) (rows : List Row) {out : Output}
    (created : create_workfile sep script (row ∷ rows) ≡ some out) (separator : IsSeparator sep)
    (clean : All (HasNoSeparator sep) (map (work_item script) (row ∷ rows)))
    (no_cr : Lacks carriage_return out.text) where
  pub yields-create_workfile :
      (parse sep out.text).yields ≡ init (map (work_item script) (row ∷ rows))
  yields-create_workfile =
      ap (λ g. g.yields) (parse-create_workfile sep script row rows created separator clean no_cr).0

  -- On the file of a job, the numbers of the rows but the last choose their work items, and the
  -- numbers from the last row's on choose nothing: if all chosen numbers are at least the number of
  -- rows, the last row's among them, then no item is counted and the resumed work file is empty.
  pub filter_workfile-drops_last :
      (ids : List ℕ)
      → All (λ k. length rows < k) ids
      → filter_workfile sep ids out.text ≡ record { item_count = 0; text = [] }
  filter_workfile-drops_last ids h = rw (
    filter_workfile-joined_all,
    yields-create_workfile,
    selected-nil ids 0 (length rows) (init (map (work_item script) (row ∷ rows))) h short,
  )
    where
      short : 0 + length (init (map (work_item script) (row ∷ rows))) ≤ length rows
      short = omega (
        arith,
        length-init (work_item script row) (map (work_item script) rows),
        length-map (work_item script) rows,
      )

  pub filter_workfile-create_workfile :
      (ids : List ℕ)
      → filter_workfile sep ids out.text ≡ record {
        item_count = length (selected ids 0 (init (map (work_item script) (row ∷ rows))));
        text = joined_all sep (selected ids 0 (init (map (work_item script) (row ∷ rows))));
      }
  filter_workfile-create_workfile ids = rw (filter_workfile-joined_all, yields-create_workfile)
