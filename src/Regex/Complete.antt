-- ===== src/Regex/Complete.antt =====
-- The matcher finds every match of the language, where each round of a repetition consumes a character.
use mathlib.Core.Path.{subst}
use mathlib.Core.List.{append_cancel_right}
use worker_ng.Base.{
  ℕ, zero, suc, ◌<◌, ◌≤◌, ◌≡◌, refl, sym, inl, inr, List, [], ◌∷◌, ◌++◌, map, arith, All-In, In,
  In-append_left, In-append_right, In-map, length, Bool-cases,
}
use worker_ng.Text.{Text, newline}
use worker_ng.Regex.{
  CharClass, Groups, Regex, chr, star, seq, opt, many, group, dollar, skip, Match, stop, step, join,
  named, run_chr, run_star, run_dollar, then_run, run_many, run,
}
use worker_ng.Regex.Correct.{IsMatch, run-IsMatch}
use worker_ng.Regex.Language.{AllIn, Rounds, Matches}

-- A match with the given groups and rest is in the list.
abbrev pub Found : List Match → Groups → Text → Type 0
Found ms gs t = (m : Match) × In m ms × (m.groups ≡ gs) × (m.rest ≡ t)

-- Each round of a repetition consumes at least a character.
abbrev pub IsProper : Regex → Type 0
IsProper (seq a b) = IsProper a × IsProper b
IsProper (opt a) = IsProper a
IsProper (many a) =
    IsProper a × ((s : Text) (g : Groups) (t : Text) → Matches a s g t → length t < length s)
IsProper (group name a) = IsProper a
IsProper _ = Unit

In-then_run :
    (k : Text → List Match) (ms : List Match) (m n : Match)
    → In m ms
    → In n (k m.rest)
    → In (join m n) (then_run k ms)
In-then_run k [] m n h i = absurd h
In-then_run k (x ∷ ms) m n (inl e) i =
    In-append_left (join m n) (map (join x) (k x.rest)) (then_run k ms)
      (subst (λ y. In (join m n) (map (join y) (k y.rest))) e (In-map (join m) n (k m.rest) i))
In-then_run k (x ∷ ms) m n (inr h) i =
    In-append_right (join m n) (map (join x) (k x.rest)) (then_run k ms) (In-then_run k ms m n h i)

Found-then_run :
    (k : Text → List Match) (ms : List Match) {g h gs : Groups} {t u : Text}
    → Found ms g t
    → Found (k t) h u
    → gs ≡ g ++ h
    → Found (then_run k ms) gs u
Found-then_run k ms {h = h} {u = u} (m, i, p, q) found e =
    let (n, j, p', q') = subst (λ x. Found (k x) h u) (sym q) found in
    (join m n, In-then_run k ms m n i j, cc, q')

Found-last : (ms : List Match) (s : Text) → Found (ms ++ stop s ∷ []) [] s
Found-last ms s = (stop s, In-append_right (stop s) ms (stop s ∷ []) (inl refl), refl, refl)

Found-run_star : (p : CharClass) (xs t : Text) → AllIn p xs → Found (run_star p (xs ++ t)) [] t
unfolding run_star
Found-run_star p [] [] h = (stop [], inl refl, refl, refl)
Found-run_star p [] (c ∷ t) h = elim (Bool-cases (p c)) [
  | inl e ↦ rw e (Found-last (map (step c) (run_star p t)) (c ∷ t))
  | inr e ↦ rw e (stop (c ∷ t), inl refl, refl, refl)
]
Found-run_star p (c ∷ xs) t (e, h) =
    let (m, i, q, r) = Found-run_star p xs t h in
    rw e (
      step c m,
      In-append_left (step c m) _ (stop (c ∷ (xs ++ t)) ∷ [])
          (In-map (step c) m (run_star p (xs ++ t)) i),
      q,
      r,
    )

Found-run_many :
    (R : Text → Groups → Text → Type 0) (r : Text → List Match)
    → ((s : Text) (g : Groups) (t : Text) → R s g t → Found (r s) g t)
    → ((s : Text) (g : Groups) (t : Text) → R s g t → length t < length s)
    → (n fuel : ℕ) (s : Text) (gs : Groups) (t : Text) → length s ≤ fuel
    → Rounds R n s gs t
    → Found (run_many r fuel s) gs t
unfolding run_many
Found-run_many R r find shrinks zero zero s gs t le (e, f) = (stop s, inl refl, sym f, e)
Found-run_many R r find shrinks zero (suc fuel) s gs t le (e, f) =
    (stop s, In-append_right (stop s) _ (stop s ∷ []) (inl refl), sym f, e)
Found-run_many R r find shrinks (suc n) zero s gs u le (t, g, h, one, others, e) =
    absurd (omega (arith, shrinks s g t one))
Found-run_many R r find shrinks (suc n) (suc fuel) s gs u le (t, g, h, one, others, e) =
    let fits : length t ≤ fuel = omega (arith, shrinks s g t one) in
    let (m, i, p, q) =
      Found-then_run (run_many r fuel) (r s) (find s g t one)
        (Found-run_many R r find shrinks n fuel t h u fits others) e in
    (m, In-append_left m _ (stop s ∷ []) i, p, q)

-- Every match of the language is found.
pub run_complete :
    (r : Regex) (s : Text) (gs : Groups) (t : Text)
    → IsProper r
    → Matches r s gs t
    → Found (run r s) gs t
unfolding run run_chr run_dollar
run_complete (chr p) s gs t proper (c, h, e, f) = rw (e, h) (step c (stop t), inl refl, sym f, refl)
run_complete (star p) s gs t proper (xs, h, e, f) = rw (e, f) (Found-run_star p xs t h)
run_complete (seq a b) s gs u (pa, pb) (t, g, h, first, second, e) =
    Found-then_run (run b) (run a s) (run_complete a s g t pa first)
      (run_complete b t h u pb second) e
run_complete (opt a) s gs t proper (inl h) =
    let (m, i, p, q) = run_complete a s gs t proper h in
    (m, In-append_left m (run a s) (stop s ∷ []) i, p, q)
run_complete (opt a) s gs t proper (inr (e, f)) =
    (stop s, In-append_right (stop s) (run a s) (stop s ∷ []) (inl refl), sym f, e)
run_complete (many a) s gs t (proper, shrinks) (n, h) =
    Found-run_many (Matches a) (run a) (λ s g t. run_complete a s g t proper) shrinks n (length s) s
      gs t (omega arith) h
run_complete (group name a) s gs t proper (m, g, h, e, f) =
    let (n, i, p, q) = run_complete a s g t proper h in
    let split = (All-In (IsMatch (Matches a) s) n (run a s) (run-IsMatch a s) i).0 in
    let same : n.consumed ≡ m = append_cancel_right n.consumed m t (cc) in
    (named name n, In-map (named name) n (run a s) i, cc, q)
run_complete dollar s gs t proper (e, f, inl g) = rw g (stop [], inl refl, sym f, cc)
run_complete dollar s gs t proper (e, f, inr g) = rw g (stop (newline ∷ []), inl refl, sym f, cc)
run_complete skip s gs t proper (e, f) = (stop s, inl refl, sym f, e)
