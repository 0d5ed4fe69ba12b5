-- ===== src/Workfile/Parsing.antt =====
-- What `WorkfileParser.parse` yields, on any file and on a file that `create_workfile` wrote.
use mathlib.Core.Path.{subst}
use worker_ng.Base.{
  ℕ, suc, ◌+◌, ◌≡◌, refl, sym, ap, ◌∙◌, some, some_inj, List, [], ◌∷◌, ◌++◌, append-nil,
  append_assoc, arith, All, length, concat, init, last, map, Bool-cases, inl, inr, if◌then◌else◌,
}
use worker_ng.Text.{Text, carriage_return, text_eq, strip, read_lines, universal_newlines}
use worker_ng.Text.Lines.{Lacks, concat-lines, universal_newlines_lem}
use worker_ng.Workfile.{Output, parse_loop, parse, print}
use worker_ng.Workfile.Create.{Row, export_line, work_item, write_rows, create_workfile}
use worker_ng.Workfile.Joined.{IsSeparator, HasNoSeparator, joined, parse_loop-joined}

-- The lines that the parser takes for separators.
pub separators : Text → List Text → List Text
separators sep [] = []
separators sep (l ∷ ls) =
    let rest = separators sep ls in if text_eq (strip l) sep then l ∷ rest else rest

-- Items, each with the separator line behind it, and what follows the last separator.
abbrev pub weave : List Text → List Text → Text → Text
weave [] seps returned = returned
weave (y ∷ ys) [] returned = returned
weave (y ∷ ys) (s ∷ seps) returned = y ++ (s ++ weave ys seps returned)

weave-parse_loop :
    (sep workitem : Text) (ls : List Text)
    → weave
        (parse_loop sep workitem ls).yields
        (separators sep ls)
        (parse_loop sep workitem ls).returned
      ≡ workitem ++ concat ls
unfolding parse_loop separators
weave-parse_loop sep workitem [] = sym (append-nil workitem)
weave-parse_loop sep workitem (l ∷ ls) = elim (Bool-cases (text_eq (strip l) sep)) [
  | inl e ↦ rw (e, weave-parse_loop sep [] ls)
  | inr e ↦ rw (e, weave-parse_loop sep (workitem ++ l) ls, append_assoc)
]

length-parse_loop :
    (sep workitem : Text) (ls : List Text)
    → length (parse_loop sep workitem ls).yields ≡ length (separators sep ls)
unfolding parse_loop separators
length-parse_loop sep workitem [] = refl
length-parse_loop sep workitem (l ∷ ls) = elim (Bool-cases (text_eq (strip l) sep)) [
  | inl e ↦ rw (e, length-parse_loop sep [] ls)
  | inr e ↦ rw (e, length-parse_loop sep (workitem ++ l) ls)
]

-- Of any file, every separator line ends one yielded item, and the yielded items, the separator
-- lines and the text that the generator returns make up the whole file, in order.
pub weave-parse :
    (sep file : Text)
    → (length (parse sep file).yields ≡ length (separators sep (read_lines file)))
      × (weave (parse sep file).yields (separators sep (read_lines file)) (parse sep file).returned
          ≡ universal_newlines file)
unfolding parse read_lines
weave-parse sep file = (
  length-parse_loop sep [] (read_lines file),
  rw (weave-parse_loop sep [] (read_lines file), concat-lines),
)

-- A work item without its final newline.
abbrev pub item_body : Text → Row → Text
item_body script row = (concat (map export_line row) ++ print []) ++ script

pub work_item-print :
    (script : Text) (row : Row) → work_item script row ≡ print (item_body script row)
unfolding work_item
work_item-print script row = simp append_assoc

map-work_item :
    (script : Text) (rows : List Row)
    → map print (map (item_body script) rows) ≡ map (work_item script) rows
map-work_item script [] = refl
map-work_item script (row ∷ rows) = rw (work_item-print, map-work_item script rows)

write_rows-joined :
    (sep script : Text) (b : Text) (rows : List Row) (out : Output) (before : Text)
    → out.text ≡ before ++ print b
    → (write_rows sep script rows out).text ≡ before ++ joined sep b (map (item_body script) rows)
unfolding write_rows
write_rows-joined sep script b [] out before e = e
write_rows-joined sep script b (row ∷ rows) out before e =
    let written : (out.text ++ print sep) ++ work_item script row
        ≡ (before ++ (print b ++ print sep)) ++ print (item_body script row) =
      simp (e, work_item-print, append_assoc) in
    write_rows-joined sep script (item_body script row) rows _ (before ++ (print b ++ print sep))
      written
    ∙ simp append_assoc

one_add : (n : ℕ) → 1 + n ≡ suc n
one_add n = omega arith

item_count-write_rows :
    (sep script : Text) (rows : List Row) (out : Output)
    → (write_rows sep script rows out).item_count ≡ out.item_count + length rows
unfolding write_rows
item_count-write_rows sep script [] out = omega arith
item_count-write_rows sep script (row ∷ rows) out =
    omega (arith, item_count-write_rows sep script rows)

-- What `create_workfile` writes, and the count that it returns.
pub create_workfile-joined :
    (sep script : Text) (row : Row) (rows : List Row)
    → create_workfile sep script (row ∷ rows)
      ≡ some (record {
        item_count = length (row ∷ rows);
        text = joined sep (item_body script row) (map (item_body script) rows);
      })
unfolding create_workfile
create_workfile-joined sep script row rows =
    let start : Output = record { item_count = 1; text = work_item script row } in
    cc (
      item_count-write_rows sep script rows start,
      write_rows-joined sep script (item_body script row) rows start []
          (work_item-print script row),
      one_add (length rows),
    )

-- Reading the file that `create_workfile` writes for the rows of a job, where the separator is
-- recognised and stands in no work item and the file has no carriage return: the generator yields
-- the work items of all rows but the last, in order, and the last one is the value that it returns.
pub parse-create_workfile :
    (sep script : Text) (row : Row) (rows : List Row) {out : Output}
    → create_workfile sep script (row ∷ rows) ≡ some out
    → IsSeparator sep
    → All (HasNoSeparator sep) (map (work_item script) (row ∷ rows))
    → Lacks carriage_return out.text
    → (parse sep out.text ≡ record {
      yields = init (map (work_item script) (row ∷ rows));
      returned = last (work_item script row) (map (work_item script) rows);
    })
      × (out.item_count ≡ length (row ∷ rows))
unfolding parse read_lines
parse-create_workfile sep script row rows {out} e h hs hcr =
    let b = item_body script row in
    let bs = map (item_body script) rows in
    let same = some_inj (sym (create_workfile-joined sep script row rows) ∙ e) in
    let clean : All (HasNoSeparator sep) (map print (b ∷ bs)) =
      subst (All (HasNoSeparator sep)) (sym (map-work_item script (row ∷ rows))) hs in
    let text_same : out.text ≡ joined sep b bs = sym (ap (λ (o : Output). o.text) same) in
    (
      rw (universal_newlines_lem _ hcr, text_same, parse_loop-joined b bs h clean)
          (cc (work_item-print script row, map-work_item script rows)),
      sym (ap (λ (o : Output). o.item_count) same),
    )
