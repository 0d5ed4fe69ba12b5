-- ===== src/Resume/Chosen.antt =====
-- Which work items are run again.
use native.Mathlib.Nat.{le_refl}
use worker_ng.Base.{
  ℕ, ◌≡◌, ◌↔◌, ◌⊎◌, refl, ap, inl, inr, Bool, true, false, none, some, List, [], ◌∷◌, ◌++◌,
  append-nil, map, length, All, In, Bool-cases, In-append_left, In-append_right,
}
use worker_ng.Text.{Text, carriage_return, read_lines}
use worker_ng.Text.Lines.{Lacks}
use worker_ng.Errors.{ok, err, attribute_error}
use worker_ng.Logs.Parser
use worker_ng.Logs.Parser.{Items}
use worker_ng.Logs.Report
use worker_ng.Logs.Report.{Pandas, report}
use worker_ng.Logs.Lines.{event_of}
use worker_ng.Logs.Parser.Statuses.{last_status, was_started}
use worker_ng.Logs.Report.Verdicts.{
  failed, unfinished, unknown, verdict, verdict_of, report_verdicts,
}
use worker_ng.Workfile.{Output}
use worker_ng.Workfile.Create.{Row, work_item, create_workfile}
use worker_ng.Workfile.Joined.{IsSeparator, HasNoSeparator}
use worker_ng.Workfile.Filtering.{filter_workfile-drops_last}
use worker_ng.Resume.{separator, work_ids, resume_workfile}

In-append_cases : (k : ℕ) (xs ys : List ℕ) → In k (xs ++ ys) → In k xs ⊎ In k ys
In-append_cases k [] ys h = inr h
In-append_cases k (x ∷ xs) ys (inl e) = inl (inl e)
In-append_cases k (x ∷ xs) ys (inr h) = elim (In-append_cases k xs ys h) [
  | inl m ↦ inl (inr m)
  | inr m ↦ inr m
]

-- The chosen items are the unfinished ones and, on request, the failed ones.
chosen_iff :
    (pd : Pandas) (redo : Bool) (k : ℕ) (log : Text) (items : Items)
    → Parser.parse log ≡ ok (some items)
    → In k (work_ids pd redo (report pd items))
      ↔ ((verdict k log ≡ unfinished) ⊎ ((redo ≡ true) × (verdict k log ≡ failed)))
unfolding work_ids
chosen_iff pd false k log items p =
    let (_, _, incomplete) = report_verdicts pd k log items p in
    rw append-nil (λ h. inl (incomplete.0 h), elim [ inl e ↦ incomplete.1 e | inr (h, _) ↦ cc ])
chosen_iff pd true k log items p =
    let (_, failure, incomplete) = report_verdicts pd k log items p in
    let is = Report.incompletes pd (report pd items) in
    let fs = Report.failures pd (report pd items) in
    (
      λ h. elim (In-append_cases k is fs h) [
        | inl m ↦ inl (incomplete.0 m)
        | inr m ↦ inr (refl, failure.0 m)
      ],
      elim [
        | inl e ↦ In-append_left k is fs (incomplete.1 e)
        | inr (_, e) ↦ In-append_right k is fs (failure.1 e)
      ],
    )

-- After a successful parse of the log, the chosen items are exactly those that the log says have started
-- and not finished and, if failed items are to be redone, those that it says have failed. So an item
-- that has not started when the job ends is not chosen.
pub work_ids_iff :
    (pd : Pandas) (redo : Bool) (k : ℕ) (log : Text) (items : Items)
    → Parser.parse log ≡ ok (some items)
    → (In k (work_ids pd redo (report pd items))
        ↔ ((verdict k log ≡ unfinished) ⊎ ((redo ≡ true) × (verdict k log ≡ failed))))
      × ((was_started k false (map event_of (read_lines log)) ≡ true)
          ⊎ ¬ In k (work_ids pd redo (report pd items)))
work_ids_iff pd redo k log items p =
    let chosen = chosen_iff pd redo k log items p in
    (
      chosen,
      elim (Bool-cases (was_started k false (map event_of (read_lines log)))) [
        | inl started ↦ inl started
        | inr idle ↦
            let unheard : verdict k log ≡ unknown =
              ap (λ b. verdict_of b (last_status k none (map event_of (read_lines log)))) idle in
            inr (λ h. elim (chosen.0 h) [ inl e ↦ cc | inr (on, e) ↦ cc ])
      ],
    )

-- If the work to be done is the last row of a job alone, where the job's work file is as
-- `create_workfile` wrote it, with the script's separator in no work item and no carriage return, then
-- resuming writes an empty work file and counts no work item.
pub resume_workfile-drops_last :
    (pd : Pandas) (redo : Bool) (log : Text) (items : Items) (script : Text) (row : Row)
    (rows : List Row) {out : Output}
    → Parser.parse log ≡ ok (some items)
    → create_workfile separator script (row ∷ rows) ≡ some out
    → IsSeparator separator
    → All (HasNoSeparator separator) (map (work_item script) (row ∷ rows))
    → Lacks carriage_return out.text
    → work_ids pd redo (report pd items) ≡ length (row ∷ rows) ∷ []
    → resume_workfile pd redo log out.text ≡ ok (some (record { item_count = 0; text = [] }))
unfolding resume_workfile Report.parse
resume_workfile-drops_last pd redo log items script row rows {out} parsed created sep clean no_cr
      last =
    rw (
      parsed,
      last,
      filter_workfile-drops_last separator script row rows created sep clean no_cr
          (length (row ∷ rows) ∷ []) (le_refl (length (row ∷ rows)), tt),
    )

-- A log in which no work item was started cannot be resumed: the script asks `None` for its incomplete
-- items, and Python raises `AttributeError`.
pub resume_workfile-nothing_started :
    (pd : Pandas) (redo : Bool) (log workfile : Text)
    → Parser.parse log ≡ ok none
    → resume_workfile pd redo log workfile ≡ err attribute_error
unfolding resume_workfile Report.parse
resume_workfile-nothing_started pd redo log workfile parsed = rw parsed
