-- ===== src/Workfile.antt =====
-- scripts/worker/workfile_parser.py: reading a work file item by item, and keeping chosen items.
-- A generator is the values that it yields and the value that it returns; a `for` loop and
-- `enumerate` see the former only.
pub mod Create
pub mod Joined
pub mod Parsing
pub mod Filtering
pub mod Resumed
pub mod Sources
use worker_ng.Base.{ℕ, suc, ◌+◌, List, [], ◌∷◌, ◌++◌, elem, ltb, if◌then◌else◌}
use worker_ng.Text.{Text, newline, text_eq, strip, read_lines}

pub record Generator : Type 0 where
  pub yields : List Text
  pub returned : Text

-- The loop of `WorkfileParser.parse`, with the item read so far.
unfoldable pub parse_loop : Text → Text → List Text → Generator
parse_loop sep workitem [] = record { yields = []; returned = workitem }
parse_loop sep workitem (line ∷ rest) =
    let next = parse_loop sep [] rest in
    let yielded : Generator = record {
      yields = workitem ∷ next.yields;
      returned = next.returned;
    } in
    let grown = parse_loop sep (workitem ++ line) rest in
    if text_eq (strip line) sep then yielded else grown

unfoldable pub parse : Text → Text → Generator
unfolding parse_loop
parse sep file = parse_loop sep [] (read_lines file)

-- What `filter_workfile` has counted and written.
pub record Output : Type 0 where
  pub item_count : ℕ
  pub text : Text

-- `print(s, file=f)`
abbrev pub print : Text → Text
print s = s ++ newline ∷ []

-- The body of the `if`: a separator before every item but the first, then the item.
unfoldable pub write_item : Text → Text → Output → Output
write_item sep workitem out = record {
  item_count = out.item_count + 1;
  text = (out.text ++ (if ltb 0 out.item_count then print sep else [])) ++ print workitem;
}

unfoldable pub filter_loop : Text → List ℕ → ℕ → List Text → Output → Output
filter_loop sep item_ids i [] out = out
filter_loop sep item_ids i (workitem ∷ rest) out =
    filter_loop sep item_ids (suc i) rest
      (if elem (i + 1) item_ids then write_item sep workitem out else out)

unfoldable pub filter_workfile : Text → List ℕ → Text → Output
unfolding filter_loop write_item
filter_workfile sep item_ids input_file =
    filter_loop sep item_ids 0 (parse sep input_file).yields (record { item_count = 0; text = [] })
