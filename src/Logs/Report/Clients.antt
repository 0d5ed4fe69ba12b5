-- ===== src/Logs/Report/Clients.antt =====
-- `client_ids`, `walltime_stats` and `client_stats` of `WorkitemReport`. The groups that `pandas` makes are a
-- parameter: for each client, the number of its rows, and statistics that are not looked into.
pub mod Tables
pub mod Counts
use worker_ng.Base.{
  ℕ, ◌≡◌, Bool, true, false, Option, none, some, List, [], ◌∷◌, length, map, keep, if◌then◌else◌,
}
use worker_ng.Text.{Text, text_eq}
use worker_ng.Dict.{lookup}
use worker_ng.Dict.Laws.{UniqueKeys}
use worker_ng.Logs.Parser.{WorkItem}
use worker_ng.Logs.Report.{Pandas, is_some}

abbrev pub is_some_client : Text → Option Text → Bool
is_some_client c none = false
is_some_client c (some d) = text_eq d c

abbrev pub is_client : Text → WorkItem → Bool
is_client c w = is_some_client c w.client_id

-- The rows of one client.
abbrev pub members : Text → List WorkItem → List WorkItem
members c ws = keep (is_client c) ws

abbrev pub when_some {ℓ κ} : {A : Type ℓ} {B : Type κ} → List A → B → Option B
when_some [] b = none
when_some (x ∷ xs) b = some b

-- How many rows of a client pass a test; a client without a row has no group.
abbrev pub group_count : (WorkItem → Bool) → Text → List WorkItem → Option ℕ
group_count p c ws = when_some (members c ws) (length (keep p (members c ws)))

-- What the report uses of `groupby('client_id')`: the groups come with their keys, each once. `count`
-- counts the values that are not missing.
pub record Groups (pd : Pandas) : Type 1 where
  -- `df.duration.describe()`, and the same and the sum for each group
  pub Statistics : Type 0
  pub Total : Type 0
  pub describe : pd.Frame → Statistics
  pub describe_groups : pd.Frame → List (Text × Statistics)
  pub lookup-describe_groups :
      (f : pd.Frame) (c : Text)
      → is_some (lookup c (describe_groups f)) ≡ is_some (group_count (λ w. true) c (pd.rows f))
  pub total_groups : pd.Frame → List (Text × Total)
  pub count_start_time : pd.Frame → List (Text × ℕ)
  pub lookup-count_start_time :
      (f : pd.Frame) (c : Text)
      → lookup c (count_start_time f) ≡ group_count (λ w. is_some w.start_time) c (pd.rows f)
  pub count_start_time-UniqueKeys : (f : pd.Frame) → UniqueKeys (count_start_time f)
  pub count_status : pd.Frame → List (Text × ℕ)
  pub lookup-count_status :
      (f : pd.Frame) (c : Text)
      → lookup c (count_status f) ≡ group_count (λ w. is_some w.status) c (pd.rows f)
  pub count_status-UniqueKeys : (f : pd.Frame) → UniqueKeys (count_status f)
  -- `df['client_id'].unique()`: the values in the order in which they come, each once
  pub unique_clients : pd.Frame → List (Option Text)

-- A row of the table of clients; `none` is a missing value.
pub record ClientRow (S T : Type 0) : Type 0 where
  pub statistics : Option S
  pub total : Option T
  pub incomplete : Option ℕ
  pub failure : Option ℕ
  pub success : Option ℕ

abbrev pub ClientTable : Type 0 → Type 0 → Type 0
ClientTable S T = List (Text × ClientRow S T)

-- A column with a value.
abbrev pub Column : Type 0 → Type 0 → Type 0
Column S T = ℕ → ClientRow S T → ClientRow S T

module _ {S T : Type 0} where
  abbrev pub blank_row : ClientRow S T
  blank_row = record {
    statistics = none;
    total = none;
    incomplete = none;
    failure = none;
    success = none;
  }

  abbrev pub incomplete_column : Column S T
  incomplete_column n r = record r { incomplete = some n }

  abbrev pub failure_column : Column S T
  failure_column n r = record r { failure = some n }

  abbrev pub success_column : Column S T
  success_column n r = record r { success = some n }

  -- `df.insert(1, column, 0)`
  unfoldable pub insert_column : Column S T → ClientTable S T → ClientTable S T
  insert_column column t = map (λ e. (e.0, column 0 e.1)) t

  -- `df.loc[idx, column] = n`: an index that is not there gets a row of its own.
  unfoldable pub set_cell : Column S T → Text → ℕ → ClientTable S T → ClientTable S T
  set_cell column c n [] = (c, column n blank_row) ∷ []
  set_cell column c n ((d, r) ∷ t) =
      if text_eq d c then (d, column n r) ∷ t else (d, r) ∷ set_cell column c n t

  -- The loop over the counts.
  unfoldable pub set_cells : Column S T → List (Text × ℕ) → ClientTable S T → ClientTable S T
  unfolding set_cell
  set_cells column [] t = t
  set_cells column ((c, n) ∷ counts) t = set_cells column counts (set_cell column c n t)

  unfoldable pub described : List (Text × S) → List (Text × T) → ClientTable S T
  described [] totals = []
  described ((c, s) ∷ rest) totals =
      (c, record blank_row { statistics = some s; total = lookup c totals }) ∷ described rest totals

module _ (pd : Pandas) (groups : Groups pd) where
  open pd use {Frame, query_success, query_failure, dropna, null_status}
  open groups use {
    Statistics, Total, describe, describe_groups, total_groups, count_start_time, count_status,
    unique_clients,
  }

  unfoldable pub walltime_stats : Frame → Statistics
  walltime_stats df = describe (dropna df)

  unfoldable pub client_ids : Frame → List (Option Text)
  client_ids df = unique_clients df

  -- Without what is printed on the way.
  unfoldable pub client_stats : Frame → ClientTable Statistics Total
  unfolding set_cells insert_column described
  client_stats df =
      let table = described (describe_groups (dropna df)) (total_groups (dropna df)) in
      let with_incomplete =
        set_cells incomplete_column (count_start_time (null_status df))
          (insert_column incomplete_column table) in
      let with_failure =
        set_cells failure_column (count_status (dropna (query_failure df)))
          (insert_column failure_column with_incomplete) in
      set_cells success_column (count_status (query_success df))
        (insert_column success_column with_failure)
