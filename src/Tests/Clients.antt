-- ===== src/Tests/Clients.antt =====
-- Groups of rows by client, and the table of clients for a log.
use worker_ng.Base.{
  ℕ, ◌+◌, ◌≡◌, refl, ap, sym, Bool, true, Option, none, some, List, [], ◌∷◌, length, keep,
  if◌then◌else◌, Bool-cases, inl, inr, arith, ◌∙◌,
}
use worker_ng.Text.{Text, codes, text_eq}
use worker_ng.Text.Equality.{text_eq_iff}
use worker_ng.Dict.{lookup, insert}
use worker_ng.Dict.Laws.{UniqueKeys, lookup-insert, insert-UniqueKeys}
use worker_ng.Logs.Parser.{WorkItem}
use worker_ng.Logs.Report.{is_some, report}
use worker_ng.Logs.Report.Clients.{
  is_client, is_some_client, members, when_some, group_count, Groups, client_stats,
}
use worker_ng.Logs.Report.Clients.Counts.{IsTally, client_stats-IsTally}
use worker_ng.Tests.Frames.{frames}
use worker_ng.Tests.Logs.{log, log_items, log-parsed}

abbrev or_zero : Option ℕ → ℕ
or_zero none = 0
or_zero (some n) = n

abbrev counted_for : Option Text → ℕ → List (Text × ℕ) → List (Text × ℕ)
counted_for none n t = t
counted_for (some c) n t = insert c (n + or_zero (lookup c t)) t

unfoldable counts : (WorkItem → Bool) → List WorkItem → List (Text × ℕ)
unfolding lookup insert
counts p [] = []
counts p (w ∷ ws) = counted_for w.client_id (if p w then 1 else 0) (counts p ws)

counted_for-UniqueKeys :
    (o : Option Text) (n : ℕ) (t : List (Text × ℕ)) → UniqueKeys t → UniqueKeys (counted_for o n t)
counted_for-UniqueKeys none n t h = h
counted_for-UniqueKeys (some c) n t h = insert-UniqueKeys c _ t h

counts-UniqueKeys : (p : WorkItem → Bool) (ws : List WorkItem) → UniqueKeys (counts p ws)
unfolding counts
counts-UniqueKeys p [] = tt
counts-UniqueKeys p (w ∷ ws) =
    counted_for-UniqueKeys w.client_id _ (counts p ws) (counts-UniqueKeys p ws)

lookup-counted_for :
    (c : Text) (o : Option Text) (n : ℕ) (t : List (Text × ℕ))
    → lookup c (counted_for o n t)
      ≡ (if is_some_client c o then some (n + or_zero (lookup c t)) else lookup c t)
lookup-counted_for c none n t = refl
lookup-counted_for c (some d) n t = elim (Bool-cases (text_eq d c)) [
  | inl e ↦
      lookup-insert d c (n + or_zero (lookup d t)) t
      ∙ rw e (ap (λ (k : Text). some (n + or_zero (lookup k t))) ((text_eq_iff d c).0 e))
  | inr e ↦ lookup-insert d c (n + or_zero (lookup d t)) t ∙ rw e refl
]

-- One more row of a client.
group_count-cons :
    (p : WorkItem → Bool) (c : Text) (w : WorkItem) (ws : List WorkItem)
    → is_client c w ≡ true
    → group_count p c (w ∷ ws) ≡ some ((if p w then 1 else 0) + or_zero (group_count p c ws))
group_count-cons p c w ws e = rw e (go (members c ws))
  where
    go :
        (ms : List WorkItem)
        → some (length (keep p (w ∷ ms)))
          ≡ some ((if p w then 1 else 0) + or_zero (when_some ms (length (keep p ms))))
    go [] = ground arith
    go (m ∷ ms) = ground arith

lookup-counts :
    (p : WorkItem → Bool) (c : Text) (ws : List WorkItem)
    → lookup c (counts p ws) ≡ group_count p c ws
unfolding counts lookup
lookup-counts p c [] = refl
lookup-counts p c (w ∷ ws) =
    lookup-counted_for c w.client_id (if p w then 1 else 0) (counts p ws)
    ∙ elim (Bool-cases (is_client c w)) [
      | inl e ↦
          let n : ℕ = if p w then 1 else 0 in
          let here : (if is_client c w
                then some (n + or_zero (lookup c (counts p ws)))
                else lookup c (counts p ws))
              ≡ some (n + or_zero (lookup c (counts p ws))) =
            rw e refl in
          here
          ∙ (ap (λ (o : Option ℕ). some (n + or_zero o)) (lookup-counts p c ws)
              ∙ sym (group_count-cons p c w ws e))
      | inr e ↦ rw (e, lookup-counts p c ws) refl
    ]

keys-counts :
    (c : Text) (ws : List WorkItem)
    → is_some (lookup c (counts (λ w. true) ws)) ≡ is_some (group_count (λ w. true) c ws)
keys-counts c ws = ap is_some (lookup-counts (λ w. true) c ws)

abbrev groups : Groups frames
groups = record {
  Statistics = ℕ;
  Total = ℕ;
  describe = length;
  describe_groups = counts (λ w. true);
  lookup-describe_groups = λ f c. keys-counts c f;
  total_groups = λ f. [];
  count_start_time = counts (λ w. is_some w.start_time);
  lookup-count_start_time = λ f c. lookup-counts (λ w. is_some w.start_time) c f;
  count_start_time-UniqueKeys = counts-UniqueKeys (λ w. is_some w.start_time);
  count_status = counts (λ w. is_some w.status);
  lookup-count_status = λ f c. lookup-counts (λ w. is_some w.status) c f;
  count_status-UniqueKeys = counts-UniqueKeys (λ w. is_some w.status);
  unique_clients = λ f. [];
}

client_stats-IsTally_example :
    IsTally
      (codes "ee98-d0")
      log_items
      (lookup (codes "ee98-d0") (client_stats frames groups (report frames log_items)))
client_stats-IsTally_example =
    client_stats-IsTally frames groups (codes "ee98-d0") log log_items log-parsed
