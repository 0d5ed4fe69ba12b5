-- ===== src/Logs/Report/Partition.antt =====
-- Where each work item of a log stands in the report.
use mathlib.Core.List.{Perm, perm_middle}
use mathlib.Core.List.Perm
use worker_ng.Base.{
  ℕ, ◌≡◌, ◌⊎◌, refl, sym, ap, ◌∙◌, Bool, true, false, Option, none, some, some_inj, [], ◌∷◌, ◌++◌,
  append_assoc, map, sorted-perm, In, Bool-cases, inl, inr, ℤ, pos, zero, suc, negsuc, ==_iff, ◌==◌,
}
use worker_ng.Text.{Text}
use worker_ng.Errors.{ok}
use worker_ng.Logs.Parser
use worker_ng.Logs.Parser.{WorkItem, Items, find_item}
use worker_ng.Logs.Parser.Recorded.{AreRecorded, parse-AreRecorded}
use worker_ng.Logs.Report.{Pandas, is_some, is_zero, report, successes, failures, incompletes}
use worker_ng.Logs.Report.Views.{
  ids, has_success, has_failure, has_no_status, successes-ids, failures-ids, incompletes-ids,
}

-- A status is zero, another number, or missing.
pub status-cases :
    (o : Option ℤ)
    → ((is_zero o ≡ true) × (is_some o ≡ true))
      ⊎ ((is_zero o ≡ false) × (is_some o ≡ true))
      ⊎ ((is_zero o ≡ false) × (is_some o ≡ false))
status-cases none = inr (inr (refl, refl))
status-cases (some (pos zero)) = inl (refl, refl)
status-cases (some (pos (suc n))) = inr (inl (refl, refl))
status-cases (some (negsuc n)) = inr (inl (refl, refl))

ids-perm :
    (items : Items)
    → Perm
        (ids has_success items ++ (ids has_failure items ++ ids has_no_status items))
        (map (λ i. i.0) items)
ids-perm [] = Perm.refl []
ids-perm ((k, w) ∷ rest) = elim (status-cases w.status) [
  | inl (z, s) ↦ rw (z, s) (Perm.cons k (ids-perm rest))
  | inr (inl (z, s)) ↦
      rw (z, s)
        (Perm.trans
          (perm_middle (ids has_success rest) (ids has_failure rest ++ ids has_no_status rest))
          (Perm.cons k (ids-perm rest)))
  | inr (inr (z, s)) ↦
      rw (z, s, ← append_assoc (ids has_success rest))
        (Perm.trans
          (perm_middle (ids has_success rest ++ ids has_failure rest) (ids has_no_status rest))
          (rw append_assoc (Perm.cons k (ids-perm rest))))
]

-- The successes, the failures and the incomplete items of a report, taken together, are the items of the
-- log, each exactly once.
pub report_partition :
    (pd : Pandas) (file : Text) (items : Items)
    → Parser.parse file ≡ ok (some items)
    → Perm
        (successes pd (report pd items)
          ++ (failures pd (report pd items) ++ incompletes pd (report pd items)))
        (map (λ i. i.0) items)
report_partition pd file items p =
    let recorded = parse-AreRecorded file items p in
    rw
      (
        successes-ids pd items recorded,
        failures-ids pd items recorded,
        incompletes-ids pd items recorded,
      )
      (Perm.trans
        (Perm.append (sorted-perm (ids has_success items)) (
          Perm.append (sorted-perm (ids has_failure items))
            (sorted-perm (ids has_no_status items))))
        (ids-perm items))

-- An item is among those that pass a test exactly if it is found and passes.
found_later :
    (t : WorkItem → Bool) (k j : ℕ) (w : WorkItem) (rest : Items)
    → find_item j rest ≡ none
    → (v : WorkItem) × (find_item k rest ≡ some v) × (t v ≡ true)
    → (v : WorkItem) × (find_item k ((j, w) ∷ rest) ≡ some v) × (t v ≡ true)
unfolding find_item
found_later t k j w rest fresh (v, e, h) = elim (Bool-cases (j == k)) [
  | inl p ↦ absurd (taken ((==_iff j k).0 p))
  | inr p ↦ (v, rw p e, h)
]
  where
    taken : j ≡ k → ⊥
    taken p = cc

pub ids_sound :
    (t : WorkItem → Bool) (k : ℕ) (items : Items)
    → AreRecorded items
    → In k (ids t items)
    → (w : WorkItem) × (find_item k items ≡ some w) × (t w ≡ true)
unfolding find_item
ids_sound t k [] h m = absurd m
ids_sound t k ((j, w) ∷ rest) (h, fresh, hs) m = elim (Bool-cases (t w)) [
  | inl e ↦
      let m' : (k ≡ j) ⊎ In k (ids t rest) = rw e at m in
      elim m' [
        | inl p ↦ (w, rw ((==_iff j k).1 (sym p)), e)
        | inr q ↦ found_later t k j w rest fresh (ids_sound t k rest hs q)
      ]
  | inr e ↦
      let m' : In k (ids t rest) = rw e at m in
      found_later t k j w rest fresh (ids_sound t k rest hs m')
]

pub ids_complete :
    (t : WorkItem → Bool) (k : ℕ) (items : Items) (w : WorkItem)
    → find_item k items ≡ some w
    → t w ≡ true
    → In k (ids t items)
unfolding find_item
ids_complete t k [] w e h = cc
ids_complete t k ((j, v) ∷ rest) w e h = elim (Bool-cases (j == k)) [
  | inl p ↦
      let e' : some v ≡ some w = rw p at e in
      rw (ap t (some_inj e') ∙ h) (inl (sym ((==_iff j k).0 p)))
  | inr p ↦
      let e' : find_item k rest ≡ some w = rw p at e in
      elim (Bool-cases (t v)) [
        | inl q ↦ rw q (inr (ids_complete t k rest w e' h))
        | inr q ↦ rw q (ids_complete t k rest w e' h)
      ]
]
