-- ===== src/Logs/Parser/Statuses.antt =====
-- What the parsed items say of the events in the log.
use worker_ng.Base.{
  ℕ, ◌≡◌, refl, true, false, Option, none, some, List, [], ◌∷◌, ◌++◌, map, arith, ◌==◌, ==_iff,
  if◌then◌else◌, Bool-cases, inl, inr, ap, ◌∙◌, Bool, ℤ,
}
use worker_ng.Text.{Text, read_lines}
use worker_ng.Errors.{ok, err, ok_inj, type_error, >>=-eq-ok}
use worker_ng.Logs.Clock.{Datetime, parse_time, elapsed}
use worker_ng.Logs.Lines.{Event, started, done, other, event_of}
use worker_ng.Logs.Parser.{
  WorkItem, Items, find_item, update_item, set_started, set_done, start_of, handle, State,
  parse_line, parse_loop, start, finish, parse,
}
use worker_ng.Logs.Parser.Recorded.{or_blank, find_item-update_item, finish-items}

-- The status that the last `done` event of an item gives, in front of an earlier status.
abbrev pub last_status : ℕ → Option ℤ → List Event → Option ℤ
last_status k o [] = o
last_status k o (started j c t ∷ es) = last_status k o es
last_status k o (done j s t ∷ es) = last_status k (if j == k then some s else o) es
last_status k o (other ∷ es) = last_status k o es

-- Whether an item has a `started` event.
abbrev pub was_started : ℕ → Bool → List Event → Bool
was_started k b [] = b
was_started k b (started j c t ∷ es) = was_started k (if j == k then true else b) es
was_started k b (done j s t ∷ es) = was_started k b es
was_started k b (other ∷ es) = was_started k b es

abbrev pub status_in : Option WorkItem → Option ℤ
status_in none = none
status_in (some w) = w.status

abbrev pub is_found : Option WorkItem → Bool
is_found none = false
is_found (some w) = true

status-started :
    (k j : ℕ) (c : Text) (t : Datetime) (items : Items)
    → status_in (find_item k (update_item j (set_started j c t) items))
      ≡ status_in (find_item k items)
status-started k j c t items = elim (Bool-cases (j == k)) [
  | inl e ↦ rw (find_item-update_item, e, (==_iff j k).0 e) (of_blank (find_item k items))
  | inr e ↦ rw (find_item-update_item, e)
]
  where
    of_blank : (o : Option WorkItem) → (or_blank o).status ≡ status_in o
    of_blank none = refl
    of_blank (some w) = refl

found-started :
    (k j : ℕ) (f : WorkItem → WorkItem) (items : Items)
    → is_found (find_item k (update_item j f items))
      ≡ (if j == k then true else is_found (find_item k items))
found-started k j f items = elim (Bool-cases (j == k)) [
  | inl e ↦ rw (find_item-update_item, e)
  | inr e ↦ rw (find_item-update_item, e)
]

status-done :
    (k j : ℕ) (f : WorkItem → WorkItem) (s : ℤ) (items : Items)
    → ((w : WorkItem) → (f w).status ≡ some s)
    → status_in (find_item k (update_item j f items))
      ≡ (if j == k then some s else status_in (find_item k items))
status-done k j f s items h = elim (Bool-cases (j == k)) [
  | inl e ↦ rw (find_item-update_item, e) (h (or_blank (find_item j items)))
  | inr e ↦ rw (find_item-update_item, e)
]

start_of-found : (o : Option WorkItem) (t : Datetime) → start_of o ≡ ok t → is_found o ≡ true
start_of-found none t e = cc
start_of-found (some w) t e = refl

found-done :
    (k j : ℕ) (f : WorkItem → WorkItem) (items : Items)
    → is_found (find_item j items) ≡ true
    → is_found (find_item k (update_item j f items)) ≡ is_found (find_item k items)
found-done k j f items h = elim (Bool-cases (j == k)) [
  | inl e ↦ found-started k j f items ∙ ground (arith, (==_iff j k).0 e)
  | inr e ↦ found-started k j f items ∙ rw e
]

handle-last_status :
    (k : ℕ) (items : Items) (e : Event) (items' : Items)
    → handle items e ≡ ok items'
    → (status_in (find_item k items') ≡ last_status k (status_in (find_item k items)) (e ∷ []))
      × (is_found (find_item k items') ≡ was_started k (is_found (find_item k items)) (e ∷ []))
unfolding handle
handle-last_status k items (started j c datetime) items' p =
    let (t, _, q) = >>=-eq-ok (parse_time datetime) _ p in
    let same = ap (find_item k) (ok_inj q) in
    (
      rw (← same) (status-started k j c t items),
      rw (← same) (found-started k j (set_started j c t) items),
    )
handle-last_status k items (done j s datetime) items' p =
    let (t, _, q) = >>=-eq-ok (parse_time datetime) _ p in
    let (t', e, r) = >>=-eq-ok (start_of (find_item j items)) _ q in
    let same = ap (find_item k) (ok_inj r) in
    let d = elapsed t t' in
    (
      rw (← same) (status-done k j (set_done s d) s items (λ w. refl)),
      rw (← same) (found-done k j (set_done s d) items (start_of-found (find_item j items) t' e)),
    )
handle-last_status k items other items' p =
    let same = ap (find_item k) (ok_inj p) in (rw (← same), rw (← same))

last_status-cons :
    (k : ℕ) (o : Option ℤ) (e : Event) (es : List Event)
    → last_status k o (e ∷ es) ≡ last_status k (last_status k o (e ∷ [])) es
last_status-cons k o (started j c t) es = refl
last_status-cons k o (done j s t) es = refl
last_status-cons k o other es = refl

was_started-cons :
    (k : ℕ) (b : Bool) (e : Event) (es : List Event)
    → was_started k b (e ∷ es) ≡ was_started k (was_started k b (e ∷ [])) es
was_started-cons k b (started j c t) es = refl
was_started-cons k b (done j s t) es = refl
was_started-cons k b other es = refl

pub parse_loop-last_status :
    (k : ℕ) (st : State) (lines : List Text) (st' : State)
    → parse_loop st lines ≡ ok st'
    → (status_in (find_item k st'.workitems)
        ≡ last_status k (status_in (find_item k st.workitems)) (map event_of lines))
      × (is_found (find_item k st'.workitems)
          ≡ was_started k (is_found (find_item k st.workitems)) (map event_of lines))
unfolding parse_loop parse_line
parse_loop-last_status k st [] st' p =
    let same = ap (λ (s : State). find_item k s.workitems) (ok_inj p) in (rw (← same), rw (← same))
parse_loop-last_status k st (line ∷ rest) st' p =
    let (next, e, q) = >>=-eq-ok (parse_line st line) (λ next. parse_loop next rest) p in
    let (items, r, s) = >>=-eq-ok (handle st.workitems (event_of line)) _ e in
    let same = ap (λ (s : State). find_item k s.workitems) (ok_inj s) in
    let (one, two) = handle-last_status k st.workitems (event_of line) items r in
    let (ih1, ih2) = parse_loop-last_status k next rest st' q in
    (
      cc (
        ih1,
        same,
        one,
        last_status-cons k (status_in (find_item k st.workitems)) (event_of line)
            (map event_of rest),
      ),
      cc (
        ih2,
        same,
        two,
        was_started-cons k (is_found (find_item k st.workitems)) (event_of line)
            (map event_of rest),
      ),
    )

-- After a successful parse, an item is reported exactly if the log has a `started` event of it, and its
-- status is that of its last `done` event, none if there is no such event.
pub parse-last_status :
    (k : ℕ) (file : Text) (items : Items)
    → parse file ≡ ok (some items)
    → (status_in (find_item k items) ≡ last_status k none (map event_of (read_lines file)))
      × (is_found (find_item k items) ≡ was_started k false (map event_of (read_lines file)))
unfolding parse find_item
parse-last_status k file items p =
    let (st, e, q) = >>=-eq-ok (parse_loop start (read_lines file)) finish p in
    let same = ap (find_item k) (finish-items st items q) in
    let (one, two) = parse_loop-last_status k start (read_lines file) st e in
    (rw (← same) one, rw (← same) two)

parse_loop-append :
    (st : State) (before after : List Text) (st' : State)
    → parse_loop st before ≡ ok st'
    → parse_loop st (before ++ after) ≡ parse_loop st' after
unfolding parse_loop
parse_loop-append st [] after st' p = rw (ok_inj p)
parse_loop-append st (line ∷ rest) after st' p =
    let (next, e, q) = >>=-eq-ok (parse_line st line) (λ next. parse_loop next rest) p in
    rw e (parse_loop-append next rest after st' q)

start_of-missing : (o : Option WorkItem) → is_found o ≡ false → start_of o ≡ err type_error
start_of-missing none h = refl
start_of-missing (some w) h = cc

-- A log in which a `done` line with a readable time stands before any `started` line of its item, the
-- lines before it raising nothing, is not refused as ill-formed: the parse raises `TypeError`.
pub parse_done_first :
    (file : Text) (before after : List Text) (line : Text) (st : State)
    → (k : ℕ) (s : ℤ) (datetime : Text) (t : Datetime) → read_lines file ≡ before ++ line ∷ after
    → parse_loop start before ≡ ok st
    → event_of line ≡ done k s datetime
    → parse_time datetime ≡ ok t
    → was_started k false (map event_of before) ≡ false
    → parse file ≡ err type_error
unfolding parse parse_line handle find_item
parse_done_first file before after line st k s datetime t split p e h fresh =
    let missing : is_found (find_item k st.workitems) ≡ false =
      (parse_loop-last_status k start before st p).1 ∙ fresh in
    let stopped : parse_loop st (line ∷ after) ≡ err type_error =
      unfold parse_loop in rw (e, h, start_of-missing (find_item k st.workitems) missing) in
    rw (split, parse_loop-append start before (line ∷ after) st p, stopped)
