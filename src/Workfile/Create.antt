-- ===== src/Workfile/Create.antt =====
-- `create_workfile` of scripts/worker/utils.py, on the rows that the data sources deliver.
use worker_ng.Base.{◌+◌, List, [], ◌∷◌, ◌++◌, map, concat, Option, none, some}
use worker_ng.Text.{Text, codes}
use worker_ng.Dict.{Dict}
use worker_ng.Workfile.{Output, print}

-- The variables and values of one parameter instance.
abbrev pub Row : Type 0
Row = Dict

unfoldable pub export_line : Text × Text → Text
export_line (var_name, value) =
    print (codes "export " ++ var_name ++ codes "='" ++ value ++ codes "'")

-- What is printed for one row.
unfoldable pub work_item : Text → Row → Text
unfolding export_line
work_item script row = (concat (map export_line row) ++ print []) ++ print script

-- The second `for` loop.
unfoldable pub write_rows : Text → Text → List Row → Output → Output
write_rows sep script [] out = out
write_rows sep script (row ∷ rows) out = write_rows sep script rows (record {
  item_count = out.item_count + 1;
  text = (out.text ++ print sep) ++ work_item script row;
})

-- The number of work items and the file. `next` raises `StopIteration` when there is no row.
unfoldable pub create_workfile : Text → Text → List Row → Option Output
unfolding write_rows work_item
create_workfile sep script [] = none
create_workfile sep script (row ∷ rows) =
    some (write_rows sep script rows (record { item_count = 1; text = work_item script row }))
