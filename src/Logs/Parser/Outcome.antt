-- ===== src/Logs/Parser/Outcome.antt =====
-- When a parse succeeds, and with which exception it fails.
use mathlib.Core.List.{cons-ne-nil}
use worker_ng.Base.{
  ℕ, suc, ◌+◌, ◌≤◌, ◌≡◌, ◌≢◌, ◌↔◌, refl, true, Option, List, [], ◌∷◌, arith, All, length, ltb,
  if◌then◌else◌, Bool-cases, inl, inr, ap, sym, ◌⊎◌,
}
use worker_ng.Text.{Text, codes, read_lines}
use worker_ng.Errors.{Result, ok, err, ok_inj, log_parse, >>=-eq-ok}
use worker_ng.Logs.Lines.{event_of, is_log_line}
use worker_ng.Logs.Parser.{
  Items, handle, State, parse_line, parse_loop, start, some_items, finish, parse,
}

-- The number of lines that have the form of a log line.
pub log_lines : List Text → ℕ
log_lines [] = 0
log_lines (l ∷ ls) = let rest = log_lines ls in if is_log_line l then suc rest else rest

log_lines-le : (ls : List Text) → log_lines ls ≤ length ls
unfolding log_lines
log_lines-le [] = omega arith
log_lines-le (l ∷ ls) = ground (arith, log_lines-le ls)

log_lines-eq_length_iff :
    (ls : List Text) → (log_lines ls ≡ length ls) ↔ All (λ l. is_log_line l ≡ true) ls
unfolding log_lines
log_lines-eq_length_iff [] = (λ _. tt, λ _. refl)
log_lines-eq_length_iff (l ∷ ls) = elim (Bool-cases (is_log_line l)) [
  | inl e ↦ rw e (
    λ h. (refl, (log_lines-eq_length_iff ls).0 (omega arith)),
    λ (_, h). ap suc ((log_lines-eq_length_iff ls).1 h),
  )
  | inr e ↦ rw e (λ h. absurd (omega (arith, log_lines-le ls)), λ (h, _). cc)
]

-- The counters after the loop.
parse_loop_counters :
    (st : State) (ls : List Text) (st' : State)
    → parse_loop st ls ≡ ok st'
    → (st'.nr_lines ≡ st.nr_lines + length ls) × (st'.nr_log_lines ≡ st.nr_log_lines + log_lines ls)
unfolding parse_loop parse_line log_lines
parse_loop_counters st [] st' p = (ground (arith, ok_inj p), ground (arith, ok_inj p))
parse_loop_counters st (line ∷ rest) st' p =
    let (next, e, q) = >>=-eq-ok (parse_line st line) (λ next. parse_loop next rest) p in
    let (items, r, s) = >>=-eq-ok (handle st.workitems (event_of line)) _ e in
    let (ih1, ih2) = parse_loop_counters next rest st' q in
    let same = ok_inj s in
    let n1 : next.nr_lines ≡ st.nr_lines + 1 = sym (ap (λ (x : State). x.nr_lines) same) in
    let n2 : next.nr_log_lines
        ≡ (if is_log_line line then st.nr_log_lines + 1 else st.nr_log_lines) =
      sym (ap (λ (x : State). x.nr_log_lines) same) in
    (omega (arith, ih1, n1), ground (arith, ih2, n2))

-- The outcomes of a parse whose loop ends with the given state.
abbrev pub Outcome : List Text → State → Result (Option Items) → Type 0
Outcome ls st r =
    ((ls ≡ []) × (r ≡ err (log_parse (codes "empty log file"))))
    ⊎ ((ls ≢ []) × All (λ l. is_log_line l ≡ true) ls × (r ≡ ok (some_items st.workitems)))
    ⊎ ((ls ≢ [])
        × (¬ All (λ l. is_log_line l ≡ true) ls)
        × (r ≡ err (log_parse (codes "ill-formed log file, verify log file"))))

finish-Outcome :
    (ls : List Text) (st : State)
    → st.nr_lines ≡ length ls
    → st.nr_log_lines ≡ log_lines ls
    → Outcome ls st (finish st)
unfolding finish
finish-Outcome [] st e f = inl (refl, rw e)
finish-Outcome (l ∷ ls) st e f = elim (Bool-cases (ltb st.nr_log_lines st.nr_lines)) [
  | inl short ↦ inr (
      inr (
        cons-ne-nil l ls,
        (λ h. absurd (ground (arith, (log_lines-eq_length_iff (l ∷ ls)).1 h, e, f, short))),
        ground (arith, e, short),
      ))
  | inr full ↦ inr (
      inl (
        cons-ne-nil l ls,
        (log_lines-eq_length_iff (l ∷ ls)).0 (ground (arith, log_lines-le (l ∷ ls), e, f, full)),
        ground (arith, e, full),
      ))
]

-- If the loop raises nothing, there are three outcomes: a file without lines is refused as empty; if
-- there are lines and each has the form of a log line, the parse succeeds with the items found; and if a
-- line has not that form, the file is refused as ill-formed.
pub parse-Outcome :
    (file : Text) (st : State)
    → parse_loop start (read_lines file) ≡ ok st
    → Outcome (read_lines file) st (parse file)
unfolding parse
parse-Outcome file st p =
    let (n1, n2) = parse_loop_counters start (read_lines file) st p in
    rw p (finish-Outcome (read_lines file) st (omega (arith, n1)) (omega (arith, n2)))
