-- ===== src/Options/Commands/Stored.antt =====
-- Reading the command that a submission has stored.
use worker_ng.Base.{
  ℕ, ◌≡◌, ◌≢◌, refl, sym, ap, ◌∙◌, Bool, true, false, List, [], ◌∷◌, ◌++◌, append-nil, append_assoc,
  Bool-cases, inl, inr, arith,
}
use worker_ng.Text.{
  Text, newline, carriage_return, is_space, lstrip, rstrip, keep_or_drop, strip, read_lines,
}
use worker_ng.Text.Lines.{Lacks, lines_of_line, universal_newlines_lem}
use worker_ng.Errors.{ok}
use worker_ng.Shlex
use worker_ng.Shlex.{all_safe, is_safe, quote, replace_quotes}
use worker_ng.Shlex.Joined.{split-join, safe_head, quote-safe}
use worker_ng.Workfile.{print}
use worker_ng.Submission.{Shell, submit_job}
use worker_ng.Options.Commands.{take_word, two_parts, split_command, parse_submit_cmd}

safe_not_space : (c : ℕ) → is_safe c ≡ true → is_space c ≡ false
unfolding is_safe is_space
safe_not_space c h = ground arith

-- What stays when a newline behind the text is stripped.
IsSolid : Text → Type 0
IsSolid s = (rstrip (s ++ newline ∷ []) ≡ s) × (s ≢ [])

cons-IsSolid : (c : ℕ) (s : Text) → IsSolid s → IsSolid (c ∷ s)
unfolding IsSolid rstrip keep_or_drop
cons-IsSolid c [] (_, h) = absurd (h refl)
cons-IsSolid c (d ∷ s) (e, h) = (rw e refl, λ z. cc)

append-IsSolid : (xs s : Text) → IsSolid s → IsSolid (xs ++ s)
append-IsSolid [] s h = h
append-IsSolid (c ∷ xs) s h = cons-IsSolid c (xs ++ s) (append-IsSolid xs s h)

one-IsSolid : (c : ℕ) → is_space c ≡ false → IsSolid (c ∷ [])
unfolding IsSolid rstrip keep_or_drop is_space
one-IsSolid c h = (rw h refl, λ z. cc)

safe-IsSolid : (c : ℕ) (s : Text) → all_safe (c ∷ s) ≡ true → IsSolid (c ∷ s)
safe-IsSolid c [] h = one-IsSolid c (safe_not_space c (safe_head c [] h).0)
safe-IsSolid c (d ∷ s) h = cons-IsSolid c (d ∷ s) (safe-IsSolid d s (safe_head c (d ∷ s) h).1)

quote-IsSolid : (x : Text) → IsSolid (quote x)
unfolding quote
quote-IsSolid [] = cons-IsSolid 39 (39 ∷ []) (one-IsSolid 39 (unfold is_space in refl))
quote-IsSolid (c ∷ x) = elim (Bool-cases (all_safe (c ∷ x))) [
  | inl e ↦ rw e (safe-IsSolid c x e)
  | inr e ↦ rw e (
      cons-IsSolid 39 (replace_quotes (c ∷ x) ++ 39 ∷ []) (
        append-IsSolid (replace_quotes (c ∷ x)) (39 ∷ [])
          (one-IsSolid 39 (unfold is_space in refl))))
]

join-IsSolid : (x : Text) (xs : List Text) → IsSolid (Shlex.join (x ∷ xs))
unfolding Shlex.join
join-IsSolid x [] = quote-IsSolid x
join-IsSolid x (y ∷ ys) =
    append-IsSolid (quote x) (32 ∷ Shlex.join (y ∷ ys))
      (cons-IsSolid 32 (Shlex.join (y ∷ ys)) (join-IsSolid y ys))

-- Nothing is stripped before a quoted word.
lstrip-quote : (x s : Text) → lstrip (quote x ++ s) ≡ quote x ++ s
unfolding lstrip quote
lstrip-quote [] s = unfold is_space in refl
lstrip-quote (c ∷ x) s = elim (Bool-cases (all_safe (c ∷ x))) [
  | inl e ↦ rw e (rw (safe_not_space c (safe_head c x e).0) refl)
  | inr e ↦ rw e (unfold is_space in refl)
]

lstrip-join :
    (x : Text) (xs : List Text) (s : Text)
    → lstrip (Shlex.join (x ∷ xs) ++ s) ≡ Shlex.join (x ∷ xs) ++ s
unfolding Shlex.join
lstrip-join x [] s = lstrip-quote x s
lstrip-join x (y ∷ ys) s = rw append_assoc (lstrip-quote x ((32 ∷ Shlex.join (y ∷ ys)) ++ s))

take_word-safe : (w s : Text) → all_safe w ≡ true → take_word (w ++ 32 ∷ s) ≡ (w, 32 ∷ s)
unfolding take_word
take_word-safe [] s h = unfold is_space in refl
take_word-safe (c ∷ w) s h =
    let (one, rest) = safe_head c w h in rw (safe_not_space c one, take_word-safe w s rest) refl

module _ (c : ℕ) (w : Text) (x : Text) (xs : List Text) (safe : all_safe (c ∷ w) ≡ true) where
  abbrev line : Text
  line = Shlex.join ((c ∷ w) ∷ x ∷ xs)

  line_lem : line ≡ (c ∷ w) ++ 32 ∷ Shlex.join (x ∷ xs)
  unfolding Shlex.join
  line_lem = rw (quote-safe c w safe) refl

  strip-line : strip (line ++ newline ∷ []) ≡ line
  unfolding strip IsSolid
  strip-line = rw (lstrip-join (c ∷ w) (x ∷ xs) (newline ∷ [])) (join-IsSolid (c ∷ w) (x ∷ xs)).0

  lstrip_blank : (s : Text) → lstrip (32 ∷ s) ≡ lstrip s
  unfolding lstrip is_space
  lstrip_blank s = refl

  two_parts_lem : (s : Text) → s ≢ [] → two_parts (c ∷ w) s ≡ ok (c ∷ w, s)
  two_parts_lem [] h = absurd (h refl)
  two_parts_lem (d ∷ s) h = refl

  split_command-line : split_command line ≡ ok (c ∷ w, Shlex.join (x ∷ xs))
  unfolding split_command IsSolid
  split_command-line =
      let solid = join-IsSolid x xs in
      let plain : lstrip (Shlex.join (x ∷ xs)) ≡ Shlex.join (x ∷ xs) =
        sym (ap lstrip (append-nil (Shlex.join (x ∷ xs))))
        ∙ (lstrip-join x xs [] ∙ append-nil (Shlex.join (x ∷ xs))) in
      let start : lstrip line ≡ (c ∷ w) ++ 32 ∷ Shlex.join (x ∷ xs) =
        sym (ap lstrip (append-nil line))
        ∙ (lstrip-join (c ∷ w) (x ∷ xs) [] ∙ (append-nil line ∙ line_lem)) in
      rw
        (
          start,
          take_word-safe (c ∷ w) (Shlex.join (x ∷ xs)) safe,
          lstrip_blank (Shlex.join (x ∷ xs)),
          plain,
        )
        (two_parts_lem (Shlex.join (x ∷ xs)) solid.1)

  parse_submit_cmd-line :
      Lacks newline line
      → Lacks carriage_return (print line)
      → parse_submit_cmd (print line) ≡ ok (x ∷ xs)
  unfolding parse_submit_cmd read_lines
  parse_submit_cmd-line one_line no_cr =
      rw
        (
          universal_newlines_lem (print line) no_cr,
          lines_of_line line one_line,
          strip-line,
          split_command-line,
        )
        (split-join (x ∷ xs))

-- The arguments of a submission are read back, for the job to be submitted again, from the file in
-- which the submission has stored its command, whatever characters they hold but line ends: where the
-- submission command is a word that needs no quotes, the result is the options and the job script.
pub parse_submit_cmd-submit_job :
    (shell : Shell) (c : ℕ) (w : Text) (cl_options : List Text) (jobscript : Text) (dryrun : Bool)
    → all_safe (c ∷ w) ≡ true
    → Lacks newline (Shlex.join ((c ∷ w) ∷ (cl_options ++ jobscript ∷ [])))
    → Lacks carriage_return (submit_job shell (c ∷ w) cl_options jobscript dryrun).file
    → parse_submit_cmd (submit_job shell (c ∷ w) cl_options jobscript dryrun).file
      ≡ ok (cl_options ++ jobscript ∷ [])
unfolding submit_job
parse_submit_cmd-submit_job shell c w [] jobscript dryrun safe one_line no_cr =
    parse_submit_cmd-line c w jobscript [] safe one_line no_cr
parse_submit_cmd-submit_job shell c w (o ∷ options) jobscript dryrun safe one_line no_cr =
    parse_submit_cmd-line c w o (options ++ jobscript ∷ []) safe one_line no_cr
