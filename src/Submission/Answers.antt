-- ===== src/Submission/Answers.antt =====
-- What Slurm's parser reads in the answer of the scheduler.
use mathlib.Core.Path.{subst}
use mathlib.Core.List.{append_cancel_right}
use worker_ng.Base.{
  ◌≡◌, ◌≢◌, inl, inr, refl, sym, ap, ◌∙◌, Option, none, some, Option-cases, some_inj, List, [], ◌∷◌,
  ◌++◌, append_assoc, All, ==_iff,
}
use worker_ng.Text.{Text, codes, text_eq}
use worker_ng.Errors.{ok, ok_inj}
use worker_ng.Regex.{Groups, Regex, Match, first, run, re_match, re_search, get_group, word}
use worker_ng.Text.Numbers.{AllDigits}
use worker_ng.DataSources.Range.Grammar.{IsNumber-of_match}
use worker_ng.Regex.Language.{Matches}
use worker_ng.Regex.Correct.{IsMatch, run-IsMatch}
use worker_ng.Submission.{answer_expr, job_id_of, parse_slurm}

pub word-Matches :
    (w s : Text) (gs : Groups) (t : Text) → Matches (word w) s gs t → (s ≡ w ++ t) × (gs ≡ [])
word-Matches [] s gs t (e, n) = (e, n)
word-Matches (c ∷ w) s gs t (u, g, h, (d, hd, e, n), rest, split) =
    let (e', n') = word-Matches w u h t rest in let same = (==_iff d c).0 hd in (cc, cc)

re_match-Matches :
    (r : Regex) (s : Text) (m : Match) → re_match r s ≡ some m → Matches r s m.groups m.rest
re_match-Matches r s m e = go (run r s) (run-IsMatch r s) e
  where
    go :
        (ms : List Match)
        → All (IsMatch (Matches r) s) ms
        → first ms ≡ some m
        → Matches r s m.groups m.rest
    go [] _ e = cc
    go (n ∷ ms) ((_, found), _) e =
        subst (λ (k : Match). Matches r s k.groups k.rest) (some_inj e) found

abbrev or_later : Option Match → Option Match → Option Match
or_later o later = elim o [ some m ↦ some m | none ↦ later ]

-- A match that a search finds is a match of the text from some position on.
re_search-Matches :
    (r : Regex) (s : Text) (m : Match)
    → re_search r s ≡ some m
    → (before : Text) × (front : Text) × (s ≡ before ++ front) × Matches r front m.groups m.rest
unfolding re_search
re_search-Matches r [] m e = ([], [], refl, re_match-Matches r [] m e)
re_search-Matches r (c ∷ s) m e = elim (Option-cases (re_match r (c ∷ s))) [
  | inl n ↦
      let later : re_search r s ≡ some m =
        subst (λ (o : Option Match). or_later o (re_search r s) ≡ some m) n e in
      let (before, front, split, found) = re_search-Matches r s m later in
      (c ∷ before, front, ap (◌∷◌ c) split, found)
  | inr (k, f) ↦
      let now : some k ≡ some m =
        subst (λ (o : Option Match). or_later o (re_search r s) ≡ some m) f e in
      ([], c ∷ s, refl, re_match-Matches r (c ∷ s) m (f ∙ now))
]

-- Slurm's answer, around the number of the job and the name of the cluster.
abbrev pub answer : Text → Text → Text
answer job_id cluster =
    codes "Submitted batch job " ++ (job_id ++ (codes " on cluster " ++ cluster))

-- What the expression matches, and the group that the parser reads.
answer-Matches :
    (front : Text) (gs : Groups) (after : Text)
    → Matches answer_expr front gs after
    → (cluster : Text) × (front ≡ answer (get_group (codes "job_id") gs) cluster ++ after)
      × (get_group (codes "job_id") gs ≢ [])
      × AllDigits (get_group (codes "job_id") gs)
unfolding get_group text_eq
answer-Matches front gs after
      (
        u,
        g,
        h,
        one,
        (
          v,
          g',
          h',
          (job_id, g1, digits, split, named),
          (w, g2, h2, two, (cluster, g3, letters, split', named'), rest),
          more,
        ),
        all,
      ) =
    let (e, n) = word-Matches (codes "Submitted batch job ") front g u one in
    let (e', n') = word-Matches (codes " on cluster ") v g2 w two in
    let (ds, (nonempty, are_digits), split'', _) = IsNumber-of_match u g1 v digits in
    let found : gs ≡ (codes "job_id", job_id) ∷ (g1 ++ h') = cc in
    let same : job_id ≡ ds = append_cancel_right job_id ds v (sym split ∙ split'') in
    rw (found) (
      cluster,
      simp (e, split, e', split', append_assoc),
      λ z. nonempty (sym same ∙ z),
      subst AllDigits (sym same) are_digits,
    )

-- If Slurm's parser returns a number, then it is not empty and made of digits, and in the output
-- there stands, somewhere, the sentence of the submission with this number and a cluster's name.
pub parse_slurm-answer :
    (output job_id : Text)
    → parse_slurm output ≡ ok job_id
    → (before : Text) × (cluster : Text) × (after : Text) × (output
        ≡ before ++ (answer job_id cluster ++ after))
      × (job_id ≢ [])
      × AllDigits job_id
unfolding parse_slurm
parse_slurm-answer output job_id e = elim (Option-cases (re_search answer_expr output)) [
  | inl n ↦ let raised : job_id_of output none ≡ ok job_id = sym (ap (job_id_of output) n) ∙ e in cc
  | inr (m, f) ↦
      let same : get_group (codes "job_id") m.groups ≡ job_id =
        ok_inj (sym (ap (job_id_of output) f) ∙ e) in
      let (before, front, split, found) = re_search-Matches answer_expr output m f in
      let (cluster, split', nonempty, digits) = answer-Matches front m.groups m.rest found in
      subst
        (λ (j : Text).
          (before : Text) × (cluster : Text) × (after : Text) × (output
            ≡ before ++ (answer j cluster ++ after))
          × (j ≢ [])
          × AllDigits j)
        same (before, cluster, m.rest, (split ∙ ap (◌++◌ before) split'), nonempty, digits)
]
