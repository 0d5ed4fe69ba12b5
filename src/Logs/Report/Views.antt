-- ===== src/Logs/Report/Views.antt =====
-- The lists of a report, in terms of the parsed items.
use worker_ng.Base.{
  ℕ, ◌≡◌, refl, ap, ◌∙◌, Bool, true, not, ◌&&◌, Option, none, some, List, [], ◌∷◌, map, keep,
  sorted, Bool-cases, inl, inr, ℤ,
}
use worker_ng.Logs.Parser.{WorkItem, Items}
use worker_ng.Logs.Parser.Recorded.{IsRecorded, AreRecorded, Together}
use worker_ng.Logs.Report.{
  Pandas, is_some, is_complete, is_zero, report, successes, failures, incompletes,
}
use worker_ng.Logs.Report.Columns.{convert_to_dict, rows_of-convert_to_dict}

-- The numbers of the items that pass a test, in the order of the items.
abbrev pub ids : (WorkItem → Bool) → Items → List ℕ
ids p items = map (λ i. i.0) (keep (λ i. p i.1) items)

abbrev pub has_success : WorkItem → Bool
has_success w = is_zero w.status

abbrev pub has_failure : WorkItem → Bool
has_failure w = is_some w.status && not (is_zero w.status)

abbrev pub has_no_status : WorkItem → Bool
has_no_status w = not (is_some w.status)

ids-item_id :
    (p : WorkItem → Bool) (items : Items)
    → AreRecorded items
    → map (λ w. w.item_id) (keep p (map (λ i. i.1) items)) ≡ map some (ids p items)
ids-item_id p [] h = refl
ids-item_id p ((k, w) ∷ rest) (h, _, hs) = elim (Bool-cases (p w)) [
  | inl e ↦ rw (e, h.has_id, ids-item_id p rest hs)
  | inr e ↦ rw (e, ids-item_id p rest hs)
]

pub complete_of_recorded :
    (k : ℕ) (w : WorkItem) → IsRecorded k w → is_complete w ≡ is_some w.status
complete_of_recorded k w h =
    rw (h.has_client, h.has_start) (together w.duration w.status h.finished)
  where
    together :
        (d : Option ℤ) (s : Option ℤ)
        → Together s d
        → ((true && true) && is_some d) && is_some s ≡ is_some s
    together none none h = refl
    together none (some s) h = absurd h
    together (some d) none h = absurd h
    together (some d) (some s) h = refl

pub keep-failure :
    (items : Items)
    → AreRecorded items
    → keep (λ w. not (is_zero w.status)) (keep is_complete (map (λ i. i.1) items))
      ≡ keep has_failure (map (λ i. i.1) items)
keep-failure [] h = refl
keep-failure ((k, w) ∷ rest) (h, _, hs) = elim (Bool-cases (is_some w.status)) [
  | inl e ↦ rw (complete_of_recorded k w h, e, keep-failure rest hs)
  | inr e ↦ rw (complete_of_recorded k w h, e, keep-failure rest hs)
]

module _ (pd : Pandas) (items : Items) (recorded : AreRecorded items) where
  pub rows-report : pd.rows (report pd items) ≡ map (λ i. i.1) items
  unfolding report
  rows-report =
      pd.rows-frame (convert_to_dict (map (λ i. i.1) items))
      ∙ rows_of-convert_to_dict (map (λ i. i.1) items)

  pub successes-ids : successes pd (report pd items) ≡ sorted (ids has_success items)
  unfolding successes
  successes-ids = ap sorted (
      pd.index-rows (pd.query_success (report pd items)) (ids has_success items)
        (rw (pd.rows-query_success, rows-report) (ids-item_id has_success items recorded)))

  pub failures-ids : failures pd (report pd items) ≡ sorted (ids has_failure items)
  unfolding failures
  failures-ids = ap sorted (
      pd.index-rows (pd.query_failure (pd.dropna (report pd items))) (ids has_failure items) (
        rw (pd.rows-query_failure, pd.rows-dropna, rows-report, keep-failure items recorded)
          (ids-item_id has_failure items recorded)))

  pub incompletes-ids : incompletes pd (report pd items) ≡ sorted (ids has_no_status items)
  unfolding incompletes
  incompletes-ids = ap sorted (
      pd.index-rows (pd.null_status (report pd items)) (ids has_no_status items)
        (rw (pd.rows-null_status, rows-report) (ids-item_id has_no_status items recorded)))
