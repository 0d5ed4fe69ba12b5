-- ===== src/Logs/Report/Clients/Counts.antt =====
-- The counts of a client in the report.
use worker_ng.Base.{
  ℕ, zero, suc, ◌+◌, ◌<◌, ◌≡◌, refl, ap, ◌∙◌, Bool, true, not, Option, none, some, List, [], ◌∷◌,
  map, length, keep, Bool-cases, inl, inr, arith, All, All-mono,
}
use worker_ng.Text.{Text}
use worker_ng.Dict.{lookup}
use worker_ng.Errors.{ok}
use worker_ng.Logs.Parser
use worker_ng.Logs.Parser.{WorkItem, Items}
use worker_ng.Logs.Parser.Recorded.{AreRecorded, parse-AreRecorded}
use worker_ng.Logs.Report.{Pandas, is_some, is_complete, is_zero, report}
use worker_ng.Logs.Report.Views.{
  has_success, has_failure, has_no_status, rows-report, keep-failure, complete_of_recorded,
}
use worker_ng.Logs.Report.Partition.{status-cases}
use worker_ng.Logs.Report.Clients.{
  is_client, members, when_some, group_count, Groups, ClientRow, incomplete_column, failure_column,
  success_column, described, client_stats,
}
use worker_ng.Logs.Report.Clients.Tables.{
  zeroed, set_found, lookup-set_cells-insert_column, is_some-lookup-described,
}

module _ {A : Type 0} where
  keep-All : (p : A → Bool) (xs : List A) → All (λ x. p x ≡ true) xs → keep p xs ≡ xs
  keep-All p [] h = refl
  keep-All p (x ∷ xs) (e, h) = rw (e, keep-All p xs h) refl

  All-keep {κ} : (P : A → Type κ) (p : A → Bool) (xs : List A) → All P xs → All P (keep p xs)
  All-keep P p [] h = tt
  All-keep P p (x ∷ xs) (px, h) = elim (Bool-cases (p x)) [
    | inl e ↦ rw e (px, All-keep P p xs h)
    | inr e ↦ rw e (All-keep P p xs h)
  ]

  -- What is kept passes the test.
  All-keep_self : (p : A → Bool) (xs : List A) → All (λ x. p x ≡ true) (keep p xs)
  All-keep_self p [] = tt
  All-keep_self p (x ∷ xs) = elim (Bool-cases (p x)) [
    | inl e ↦ rw e (e, All-keep_self p xs)
    | inr e ↦ rw e (All-keep_self p xs)
  ]

  All-true : (xs : List A) → All (λ x. true ≡ true) xs
  All-true [] = tt
  All-true (x ∷ xs) = (refl, All-true xs)

  keep_comm : (p q : A → Bool) (xs : List A) → keep p (keep q xs) ≡ keep q (keep p xs)
  keep_comm p q [] = refl
  keep_comm p q (x ∷ xs) = ground (arith, keep_comm p q xs)

-- A group with its number of rows, if it has one.
abbrev counted : ℕ → Option ℕ
counted zero = none
counted (suc n) = some (suc n)

group_count-All :
    (p : WorkItem → Bool) (c : Text) (ws : List WorkItem)
    → All (λ w. p w ≡ true) ws
    → group_count p c ws ≡ counted (length (members c ws))
group_count-All p c ws h =
    rw (keep-All p (members c ws) (All-keep (λ w. p w ≡ true) (is_client c) ws h))
      (of_length (members c ws))
  where
    of_length : (xs : List WorkItem) → when_some xs (length xs) ≡ counted (length xs)
    of_length [] = refl
    of_length (x ∷ xs) = refl

-- How many items of a client pass a test.
abbrev pub tally : Text → (WorkItem → Bool) → Items → ℕ
tally c p items = length (members c (keep p (map (λ i. i.1) items)))

abbrev pub everything : WorkItem → Bool
everything w = true

tally_sum :
    (c : Text) (items : Items)
    → tally c has_no_status items + tally c has_failure items + tally c has_success items
      ≡ tally c everything items
tally_sum c [] = omega arith
tally_sum c ((k, w) ∷ rest) = ground (arith, tally_sum c rest, status-cases w.status)

-- The rows without a missing value are those with a status.
tally_complete :
    (c : Text) (items : Items)
    → AreRecorded items
    → tally c is_complete items ≡ tally c has_failure items + tally c has_success items
tally_complete c [] h = omega arith
tally_complete c ((k, w) ∷ rest) (h, _, hs) =
    ground (arith, tally_complete c rest hs, complete_of_recorded k w h, status-cases w.status)

has_start :
    (items : Items)
    → AreRecorded items
    → All (λ w. is_some w.start_time ≡ true) (map (λ i. i.1) items)
has_start [] h = tt
has_start ((k, w) ∷ rest) (h, _, hs) = (rw h.has_start refl, has_start rest hs)

success_is_some : (w : WorkItem) → has_success w ≡ true → is_some w.status ≡ true
success_is_some w e = ground (arith, status-cases w.status)

failure_is_some : (w : WorkItem) → has_failure w ≡ true → is_some w.status ≡ true
failure_is_some w e = ground arith

-- The row of a client: it is there exactly if the client has started an item, and then its three
-- counts are those of its items without a status, with a status that is not zero, and with
-- status zero, which add up to the number of its items.
abbrev pub IsTally : {S T : Type 0} → Text → Items → Option (ClientRow S T) → Type 0
IsTally c items none = tally c everything items ≡ 0
IsTally c items (some r) =
    (r.incomplete ≡ some (tally c has_no_status items))
    × (r.failure ≡ some (tally c has_failure items))
    × (r.success ≡ some (tally c has_success items))
    × (tally c has_no_status items + tally c has_failure items + tally c has_success items
        ≡ tally c everything items)
    × (0 < tally c everything items)

-- The three columns, one after the other, for a row that is there exactly if the last two have a count.
columns-IsTally :
    {S T : Type 0} (c : Text) (items : Items) (o : Option (ClientRow S T)) (i f s : ℕ)
    → tally c has_no_status items ≡ i
    → tally c has_failure items ≡ f
    → tally c has_success items ≡ s
    → is_some o ≡ is_some (counted (f + s))
    → IsTally c items (
        set_found success_column (counted s) (
          zeroed success_column (
            set_found failure_column (counted f) (
              zeroed failure_column
                (set_found incomplete_column (counted i) (zeroed incomplete_column o))))))
columns-IsTally c items none zero zero zero p q r e = omega (arith, tally_sum c items)
columns-IsTally c items o i f s p q r e = ground (arith, tally_sum c items)

abbrev filled :
    {S T : Type 0}
    → Option ℕ
    → Option ℕ
    → Option ℕ
    → Option (ClientRow S T)
    → Option (ClientRow S T)
filled i f s o = set_found success_column s (
    zeroed success_column (
      set_found failure_column f
        (zeroed failure_column (set_found incomplete_column i (zeroed incomplete_column o)))))

module _ (pd : Pandas) (groups : Groups pd) (c : Text) where
  lookup-client_stats :
      (df : pd.Frame)
      → lookup c (client_stats pd groups df)
        ≡ filled
            (lookup c (groups.count_start_time (pd.null_status df)))
            (lookup c (groups.count_status (pd.dropna (pd.query_failure df))))
            (lookup c (groups.count_status (pd.query_success df)))
            (lookup c (
              described
                (groups.describe_groups (pd.dropna df))
                (groups.total_groups (pd.dropna df))))
  unfolding client_stats
  lookup-client_stats df =
      let fs = groups.count_status (pd.dropna (pd.query_failure df)) in
      let ss = groups.count_status (pd.query_success df) in
      lookup-set_cells-insert_column success_column c ss _ (groups.count_status-UniqueKeys _)
      ∙ ap (λ o. set_found success_column (lookup c ss) (zeroed success_column o))
          (lookup-set_cells-insert_column failure_column c fs _ (groups.count_status-UniqueKeys _)
            ∙ ap (λ o. set_found failure_column (lookup c fs) (zeroed failure_column o))
                (lookup-set_cells-insert_column incomplete_column c _ _
                  (groups.count_start_time-UniqueKeys _)))

  -- A group of rows that all pass the test that is counted.
  group_count-rows :
      (p q : WorkItem → Bool) (df : pd.Frame) (items : Items)
      → pd.rows df ≡ keep q (map (λ i. i.1) items)
      → All (λ w. p w ≡ true) (keep q (map (λ i. i.1) items))
      → group_count p c (pd.rows df) ≡ counted (tally c q items)
  group_count-rows p q df items e h =
      ap (group_count p c) e ∙ group_count-All p c (keep q (map (λ i. i.1) items)) h

  -- In the report on a log, the table of clients has, for each client, a row exactly if the client has
  -- started an item; its counts of incomplete, failed and successful items are those of the log's
  -- items of that client, and add up to their number.
  pub client_stats-IsTally :
      (file : Text) (items : Items)
      → Parser.parse file ≡ ok (some items)
      → IsTally c items (lookup c (client_stats pd groups (report pd items)))
  client_stats-IsTally file items parsed =
      let recorded = parse-AreRecorded file items parsed in
      let rows = map (λ (i : ℕ × WorkItem). i.1) items in
      let df = report pd items in
      let incomplete : lookup c (groups.count_start_time (pd.null_status df))
          ≡ counted (tally c has_no_status items) =
        groups.lookup-count_start_time (pd.null_status df) c
        ∙ group_count-rows (λ w. is_some w.start_time) has_no_status (pd.null_status df) items
            (pd.rows-null_status df ∙ ap (keep has_no_status) (rows-report pd items recorded))
            (All-keep (λ w. is_some w.start_time ≡ true) has_no_status rows
              (has_start items recorded)) in
      let failure : lookup c (groups.count_status (pd.dropna (pd.query_failure df)))
          ≡ counted (tally c has_failure items) =
        groups.lookup-count_status (pd.dropna (pd.query_failure df)) c
        ∙ group_count-rows (λ w. is_some w.status) has_failure (pd.dropna (pd.query_failure df))
            items
            (pd.rows-dropna (pd.query_failure df)
              ∙ (ap (keep is_complete) (
                    pd.rows-query_failure df
                    ∙ ap (keep (λ w. not (is_zero w.status))) (rows-report pd items recorded))
                  ∙ (keep_comm is_complete (λ w. not (is_zero w.status)) rows
                      ∙ keep-failure items recorded)))
            (All-mono (keep has_failure rows) failure_is_some (All-keep_self has_failure rows)) in
      let success : lookup c (groups.count_status (pd.query_success df))
          ≡ counted (tally c has_success items) =
        groups.lookup-count_status (pd.query_success df) c
        ∙ group_count-rows (λ w. is_some w.status) has_success (pd.query_success df) items
            (pd.rows-query_success df ∙ ap (keep has_success) (rows-report pd items recorded))
            (All-mono (keep has_success rows) success_is_some (All-keep_self has_success rows)) in
      let there : is_some (
            lookup c (
              described (groups.describe_groups (pd.dropna df))
                (groups.total_groups (pd.dropna df))))
          ≡ is_some (counted (tally c has_failure items + tally c has_success items)) =
        is_some-lookup-described c (groups.describe_groups (pd.dropna df))
          (groups.total_groups (pd.dropna df))
        ∙ (groups.lookup-describe_groups (pd.dropna df) c
            ∙ ap is_some (
                group_count-rows everything is_complete (pd.dropna df) items
                  (pd.rows-dropna df ∙ ap (keep is_complete) (rows-report pd items recorded))
                  (All-true (keep is_complete rows))
                ∙ ap counted (tally_complete c items recorded))) in
      rw (lookup-client_stats df, incomplete, failure, success)
        (columns-IsTally c items _ _ _ _ refl refl refl there)
