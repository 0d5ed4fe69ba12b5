-- ===== src/Logs/Report/Verdicts.antt =====
-- Each list of a report holds the items with one verdict.
use worker_ng.Base.{
  ℕ, ◌≡◌, ◌≢◌, ◌↔◌, refl, sym, ap, ◌∙◌, Bool, true, false, Option, none, some, some_inj, map,
  sorted, sorted_mem, In, arith, ℤ, pos, zero, suc, negsuc,
}
use worker_ng.Text.{Text, read_lines}
use worker_ng.Errors.{ok}
use worker_ng.Logs.Lines.{event_of}
use worker_ng.Logs.Parser
use worker_ng.Logs.Parser.{WorkItem, Items, find_item}
use worker_ng.Logs.Parser.Recorded.{AreRecorded, parse-AreRecorded}
use worker_ng.Logs.Parser.Statuses.{
  last_status, was_started, status_in, is_found, parse-last_status,
}
use worker_ng.Logs.Report.{Pandas, report, successes, failures, incompletes}
use worker_ng.Logs.Report.Views.{
  ids, has_success, has_failure, has_no_status, successes-ids, failures-ids, incompletes-ids,
}
use worker_ng.Logs.Report.Partition.{ids_sound, ids_complete}

ids_mem :
    (t : WorkItem → Bool) (k : ℕ) (items : Items)
    → AreRecorded items
    → In k (ids t items) ↔ ((w : WorkItem) × (find_item k items ≡ some w) × (t w ≡ true))
ids_mem t k items recorded =
    (ids_sound t k items recorded, λ (w, e, h). ids_complete t k items w e h)

-- What the events of a log say of an item.
pub data Verdict : Type 0 where
  succeeded failed unfinished unknown : Verdict

abbrev pub verdict_of : Bool → Option ℤ → Verdict
verdict_of false o = unknown
verdict_of true none = unfinished
verdict_of true (some (pos zero)) = succeeded
verdict_of true (some (pos (suc n))) = failed
verdict_of true (some (negsuc n)) = failed

-- The verdict on item `k`: it is known if it was started, and judged by the exit status of its last
-- `done` event.
abbrev pub verdict : ℕ → Text → Verdict
verdict k file =
    let events = map event_of (read_lines file) in
    verdict_of (was_started k false events) (last_status k none events)

-- The tests on items are the verdicts on items that were found.
verdict_of_item :
    (t : WorkItem → Bool) (v : Verdict)
    → ((w : WorkItem) → (t w ≡ true) ↔ (verdict_of true w.status ≡ v))
    → v ≢ unknown
    → (o : Option WorkItem)
    → ((w : WorkItem) × (o ≡ some w) × (t w ≡ true)) ↔ (verdict_of (is_found o) (status_in o) ≡ v)
verdict_of_item t v test known none = (λ (w, e, h). cc, λ e. absurd (known (sym e)))
verdict_of_item t v test known (some w) =
    (λ (x, e, h). (test w).0 (ap t (some_inj e) ∙ h), λ e. (w, refl, (test w).1 e))

success_test : (w : WorkItem) → (has_success w ≡ true) ↔ (verdict_of true w.status ≡ succeeded)
success_test w = ground arith

failure_test : (w : WorkItem) → (has_failure w ≡ true) ↔ (verdict_of true w.status ≡ failed)
failure_test w = ground arith

no_status_test : (w : WorkItem) → (has_no_status w ≡ true) ↔ (verdict_of true w.status ≡ unfinished)
no_status_test w = ground arith

module _ (pd : Pandas) (k : ℕ) (file : Text) (items : Items)
    (parsed : Parser.parse file ≡ ok (some items)) where
  listed_iff :
      (t : WorkItem → Bool) (v : Verdict)
      → ((w : WorkItem) → (t w ≡ true) ↔ (verdict_of true w.status ≡ v))
      → v ≢ unknown
      → In k (sorted (ids t items)) ↔ (verdict k file ≡ v)
  listed_iff t v test known =
      let recorded = parse-AreRecorded file items parsed in
      let (status, found) = parse-last_status k file items parsed in
      let same : verdict_of (is_found (find_item k items)) (status_in (find_item k items))
          ≡ verdict k file =
        cc (status, found) in
      let item_iff = verdict_of_item t v test known (find_item k items) in
      (
        λ m.
            sym same ∙ item_iff.0 (ids_sound t k items recorded ((sorted_mem k (ids t items)).0 m)),
        λ e.
            let (w, f, h) = item_iff.1 (same ∙ e) in
            (sorted_mem k (ids t items)).1 (ids_complete t k items w f h),
      )

  -- After a successful parse, the successes, the failures and the incomplete items of the report are
  -- exactly the items of which the log says so: those with a `started` event whose last `done` event has
  -- exit status zero, another exit status, or does not exist.
  pub report_verdicts :
      (In k (successes pd (report pd items)) ↔ (verdict k file ≡ succeeded))
      × (In k (failures pd (report pd items)) ↔ (verdict k file ≡ failed))
      × (In k (incompletes pd (report pd items)) ↔ (verdict k file ≡ unfinished))
  report_verdicts =
      let recorded = parse-AreRecorded file items parsed in
      (
        rw (successes-ids pd items recorded) (listed_iff has_success succeeded success_test (cc)),
        rw (failures-ids pd items recorded) (listed_iff has_failure failed failure_test (cc)),
        rw (incompletes-ids pd items recorded)
            (listed_iff has_no_status unfinished no_status_test (cc)),
      )
