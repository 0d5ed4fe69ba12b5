-- ===== src/Logs/Parser/Recorded.antt =====
-- What every item of a parsed log has.
use mathlib.Core.Path.{subst}
use worker_ng.Base.{
  ℕ, ◌≡◌, ◌≢◌, sym, refl, ℤ, Option, none, some, some_inj, List, [], ◌∷◌, arith, ◌==◌, ==_iff,
  if◌then◌else◌, Bool-cases, inl, inr,
}
use worker_ng.Text.{Text, read_lines}
use worker_ng.Errors.{ok, ok_inj, >>=-eq-ok}
use worker_ng.Logs.Clock.{Datetime, Timedelta, parse_time, elapsed}
use worker_ng.Logs.Lines.{Event, started, done, other, event_of}
use worker_ng.Logs.Parser.{
  WorkItem, blank, Items, find_item, update_item, set_started, set_done, start_of, handle, State,
  parse_line, parse_loop, start, some_items, finish, parse,
}

-- Both values are there, or neither.
abbrev pub Together {ℓ κ} : {A : Type ℓ} {B : Type κ} → Option A → Option B → Type 0
Together none none = Unit
Together none (some b) = ⊥
Together (some a) none = ⊥
Together (some a) (some b) = Unit

-- The item of a key carries the key, who runs it and since when; it has a status exactly if it has a
-- duration.
pub record IsRecorded (k : ℕ) (w : WorkItem) : Type 0 where
  pub has_id : w.item_id ≡ some k
  pub client : Text
  pub has_client : w.client_id ≡ some client
  pub time : Datetime
  pub has_start : w.start_time ≡ some time
  pub finished : Together w.status w.duration

-- Every item is recorded, and no key stands twice.
abbrev pub AreRecorded : Items → Type 0
AreRecorded [] = Unit
AreRecorded ((k, w) ∷ rest) = IsRecorded k w × (find_item k rest ≡ none) × AreRecorded rest

abbrev pub or_blank : Option WorkItem → WorkItem
or_blank none = blank
or_blank (some w) = w

pub find_item-update_item :
    (k j : ℕ) (f : WorkItem → WorkItem) (items : Items)
    → find_item j (update_item k f items)
      ≡ (if k == j then some (f (or_blank (find_item k items))) else find_item j items)
unfolding find_item update_item
find_item-update_item k j f [] = refl
find_item-update_item k j f ((i, v) ∷ rest) = ground (arith, find_item-update_item k j f rest)

update_item-AreRecorded :
    (k : ℕ) (f : WorkItem → WorkItem) (items : Items)
    → ((w : WorkItem) → find_item k items ≡ some w → IsRecorded k w → IsRecorded k (f w))
    → (find_item k items ≡ none → IsRecorded k (f blank))
    → AreRecorded items
    → AreRecorded (update_item k f items)
unfolding find_item update_item
update_item-AreRecorded k f [] old new h = (new refl, refl, tt)
update_item-AreRecorded k f ((j, w) ∷ rest) old new (h, h', hs) = elim (Bool-cases (j == k)) [
  | inl e ↦
      let same : j ≡ k = (==_iff j k).0 e in
      rw e (
        subst (λ i. IsRecorded i (f w)) (sym same)
            (old w (rw e) (subst (λ i. IsRecorded i w) same h)),
        h',
        hs,
      )
  | inr e ↦ rw e (
    h,
    ground (arith, find_item-update_item k j f rest, h', e),
    update_item-AreRecorded k f rest (λ v p. old v (rw e p)) (λ p. new (rw e p)) hs,
  )
]

set_started-IsRecorded :
    (k : ℕ) (client : Text) (t : Datetime) (w : WorkItem)
    → Together w.status w.duration
    → IsRecorded k (set_started k client t w)
set_started-IsRecorded k client t w h = record {
  has_id = refl;
  client = client;
  has_client = refl;
  time = t;
  has_start = refl;
  finished = h;
}

set_done-IsRecorded :
    (k : ℕ) (s : ℤ) (d : Timedelta) (w : WorkItem) → IsRecorded k w → IsRecorded k (set_done s d w)
set_done-IsRecorded k s d w h = record {
  has_id = h.has_id;
  client = h.client;
  has_client = h.has_client;
  time = h.time;
  has_start = h.has_start;
  finished = tt;
}

start_of-none : (o : Option WorkItem) (t : Datetime) → start_of o ≡ ok t → o ≢ none
start_of-none none t e p = cc
start_of-none (some w) t e p = cc

handle-AreRecorded :
    (items : Items) (e : Event) (items' : Items)
    → AreRecorded items
    → handle items e ≡ ok items'
    → AreRecorded items'
unfolding handle
handle-AreRecorded items (started k client datetime) items' h p =
    let (t, _, q) = >>=-eq-ok (parse_time datetime) _ p in
    subst AreRecorded (ok_inj q) (
      update_item-AreRecorded k (set_started k client t) items
        (λ w _ r. set_started-IsRecorded k client t w r.finished)
        (λ _. set_started-IsRecorded k client t blank tt) h)
handle-AreRecorded items (done k s datetime) items' h p =
    let (t, _, q) = >>=-eq-ok (parse_time datetime) _ p in
    let (t', e, r) = >>=-eq-ok (start_of (find_item k items)) _ q in
    subst AreRecorded (ok_inj r) (
      update_item-AreRecorded k (set_done s (elapsed t t')) items
        (λ w _. set_done-IsRecorded k s (elapsed t t') w)
        (λ missing. absurd (start_of-none (find_item k items) t' e missing)) h)
handle-AreRecorded items other items' h p = subst AreRecorded (ok_inj p) h

pub parse_loop-AreRecorded :
    (st : State) (lines : List Text) (st' : State)
    → AreRecorded st.workitems
    → parse_loop st lines ≡ ok st'
    → AreRecorded st'.workitems
unfolding parse_loop parse_line
parse_loop-AreRecorded st [] st' h p = subst (λ (s : State). AreRecorded s.workitems) (ok_inj p) h
parse_loop-AreRecorded st (line ∷ rest) st' h p =
    let (next, e, q) = >>=-eq-ok (parse_line st line) (λ next. parse_loop next rest) p in
    let (items, r, s) = >>=-eq-ok (handle st.workitems (event_of line)) _ e in
    parse_loop-AreRecorded next rest st'
      (subst (λ (s : State). AreRecorded s.workitems) (ok_inj s)
        (handle-AreRecorded st.workitems (event_of line) items h r))
      q

some_items_inj : (ws items : Items) → some_items ws ≡ some items → ws ≡ items
some_items_inj [] items e = cc
some_items_inj (w ∷ ws) items e = some_inj e

pub finish-items : (st : State) (items : Items) → finish st ≡ ok (some items) → st.workitems ≡ items
unfolding finish
finish-items st items p = ground (arith, some_items_inj st.workitems items)

-- Of every item that a successful parse reports, the key is its own number and is no other item's, the
-- client and the start time are known, and there is a status exactly if there is a duration.
pub parse-AreRecorded :
    (file : Text) (items : Items) → parse file ≡ ok (some items) → AreRecorded items
unfolding parse
parse-AreRecorded file items p =
    let (st, e, q) = >>=-eq-ok (parse_loop start (read_lines file)) finish p in
    subst AreRecorded (finish-items st items q)
      (parse_loop-AreRecorded start (read_lines file) st tt e)
