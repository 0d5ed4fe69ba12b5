-- ===== src/Options/Slurm/Reading.antt =====
-- What `_parse_script` of the Slurm parser makes of a job script.
use worker_ng.Base.{
  ℕ, suc, ◌≡◌, refl, sym, ◌∙◌, true, false, ◌&&◌, none, some, List, [], ◌∷◌, ◌++◌, append-nil,
  append_assoc, concat, if◌then◌else◌, ◌==◌, arith, Bool-cases, inl, inr,
}
use worker_ng.Text.{Text, codes, starts_with, strip, read_lines}
use worker_ng.Errors.{Result, ok, err, ◌>>=◌, >>=-assoc, >>=_congr}
use worker_ng.Options.{Parsers}
use worker_ng.Options.Headers.{
  is_header_line, header, body, shebang_of, after_shebang, directive_lines, line_args, is_empty,
}
use worker_ng.Options.Slurm.{
  State, start, add_directive, is_resource_directive_line, hetjob, parse_line, parse_lines,
  parse_script,
}

abbrev pub all_args : List (Text × List Text) → List Text
all_args [] = []
all_args ((l, new) ∷ ds) = new ++ all_args ds

-- The lines with a resource among their arguments, and the others.
abbrev pub resource_directives : List (Text × List Text) → Text
resource_directives [] = []
resource_directives ((l, new) ∷ ds) =
    let rest = resource_directives ds in if is_resource_directive_line new then l ++ rest else rest

abbrev pub plain_directives : List (Text × List Text) → Text
plain_directives [] = []
plain_directives ((l, new) ∷ ds) =
    let rest = plain_directives ds in if is_resource_directive_line new then rest else l ++ rest

module _ (ps : Parsers) (prefix : Text) where
  open ps use {parse_known_args}

  -- The directive lines with their arguments.
  unfoldable pub with_args : List Text → Result (List (Text × List Text))
  with_args [] = ok []
  with_args (l ∷ ls) = do new ← line_args prefix l; rest ← with_args ls; ok ((l, new) ∷ rest)

  parse_line-body :
      (n : ℕ) (l : Text) (st : State)
      → st.parsing_slurm ≡ false
      → parse_line ps prefix (suc n) l st
        ≡ ok (record st { script = st.script ++ l; parsing_slurm = false })
  unfolding parse_line
  parse_line-body n l st e = ground arith

  parse_line-script :
      (n : ℕ) (l : Text) (st : State)
      → is_header_line prefix l ≡ false
      → parse_line ps prefix (suc n) l st
        ≡ ok (record st { script = st.script ++ l; parsing_slurm = false })
  unfolding parse_line
  parse_line-script n l st e = ground arith

  parse_line-comment :
      (n : ℕ) (l : Text) (st : State)
      → is_header_line prefix l ≡ true
      → starts_with prefix l ≡ false
      → st.parsing_slurm ≡ true
      → parse_line ps prefix (suc n) l st ≡ ok st
  unfolding parse_line
  parse_line-comment n l st h d e = ground arith

  parse_line-directive :
      (n : ℕ) (l : Text) (st : State)
      → starts_with prefix l ≡ true
      → st.parsing_slurm ≡ true
      → parse_line ps prefix (suc n) l st
        ≡ (do new ← line_args prefix l; ok (add_directive l new st))
  unfolding parse_line
  parse_line-directive n l st d e = ground arith

  -- After the header every line goes to the script.
  parse_lines-body :
      (n : ℕ) (ls : List Text) (st : State)
      → st.parsing_slurm ≡ false
      → parse_lines ps prefix (suc n) ls st
        ≡ ok (record st { script = st.script ++ concat ls; parsing_slurm = false })
  unfolding parse_lines
  parse_lines-body n [] st e = cc (e, append-nil st.script)
  parse_lines-body n (l ∷ ls) st e =
      rw
        (
          parse_line-body n l st e,
          parse_lines-body (suc n) ls (record st { script = st.script ++ l; parsing_slurm = false })
              refl,
          append_assoc,
        )
        refl

  abbrev read_header : List Text → State → Result State
  read_header ls st = do
    ds ← with_args (directive_lines prefix ls)
    ok (record st {
      args = st.args ++ all_args ds;
      slurm_directives = st.slurm_directives ++ plain_directives ds;
      slurm_group0_directives = st.slurm_group0_directives ++ resource_directives ds;
      script = st.script ++ concat (body prefix ls);
      parsing_slurm = is_empty (body prefix ls);
    })

  -- The step of the induction for a directive line, given the later ones.
  read_directive_rest :
      (l : Text) (ls : List Text) (st : State) (new : List Text)
      (q : Result (List (Text × List Text)))
      → (q >>= (λ ds.
          let added = add_directive l new st in
          ok (record added {
            args = added.args ++ all_args ds;
            slurm_directives = added.slurm_directives ++ plain_directives ds;
            slurm_group0_directives = added.slurm_group0_directives ++ resource_directives ds;
            script = st.script ++ concat (body prefix ls);
            parsing_slurm = is_empty (body prefix ls);
          })))
        ≡ (q >>= (λ rest. ok ((l, new) ∷ rest)) >>= (λ ds. ok (record st {
          args = st.args ++ all_args ds;
          slurm_directives = st.slurm_directives ++ plain_directives ds;
          slurm_group0_directives = st.slurm_group0_directives ++ resource_directives ds;
          script = st.script ++ concat (body prefix ls);
          parsing_slurm = is_empty (body prefix ls);
        })))
  read_directive_rest l ls st new (ok rest) = elim (Bool-cases (is_resource_directive_line new)) [
    | inl e ↦ rw e (simp append_assoc)
    | inr e ↦ rw e (simp append_assoc)
  ]
  read_directive_rest l ls st new (err e) = refl

  add_directive-script :
      (l : Text) (new : List Text) (st : State)
      → ((add_directive l new st).script ≡ st.script)
        × ((add_directive l new st).shebang ≡ st.shebang)
        × ((add_directive l new st).parsing_slurm ≡ st.parsing_slurm)
  add_directive-script l new st = elim (Bool-cases (is_resource_directive_line new)) [
    | inl e ↦ rw e (refl, refl, refl)
    | inr e ↦ rw e (refl, refl, refl)
  ]

  read_directive :
      (l : Text) (ls : List Text) (st : State)
      → starts_with prefix l ≡ true
      → is_header_line prefix l ≡ true
      → (line_args prefix l >>= (λ new. read_header ls (add_directive l new st)))
        ≡ read_header (l ∷ ls) st
  unfolding header body with_args
  read_directive l ls st d h =
      let q = with_args (directive_lines prefix ls) in
      rw (h, d)
        (>>=_congr (line_args prefix l) _ _
            (λ new. rw (add_directive-script l new st).0 (read_directive_rest l ls st new q))
          ∙ sym (>>=-assoc (line_args prefix l) (λ new. q >>= (λ rest. ok ((l, new) ∷ rest))) _))

  parse_lines-header :
      (n : ℕ) (ls : List Text) (st : State)
      → st.parsing_slurm ≡ true
      → parse_lines ps prefix (suc n) ls st ≡ read_header ls st
  unfolding parse_lines header body with_args
  parse_lines-header n [] st e = cc (
    e,
    append-nil st.args,
    append-nil st.slurm_directives,
    append-nil st.slurm_group0_directives,
    append-nil st.script,
  )
  parse_lines-header n (l ∷ ls) st e = elim (Bool-cases (is_header_line prefix l)) [
    | inr h ↦ rw (parse_line-script n l st h) (
        parse_lines-body (suc n) ls (record st { script = st.script ++ l; parsing_slurm = false })
          refl
        ∙ rw h (
            cc (
              append-nil st.args,
              append-nil st.slurm_directives,
              append-nil st.slurm_group0_directives,
              append_assoc st.script l (concat ls),
            )))
    | inl h ↦ elim (Bool-cases (starts_with prefix l)) [
      | inr d ↦ rw (parse_line-comment n l st h d e, parse_lines-header (suc n) ls st e, h, d) refl
      | inl d ↦ rw (parse_line-directive n l st d e) (
          >>=-assoc (line_args prefix l) _ _
          ∙ (>>=_congr (line_args prefix l) _ _ (λ new.
                parse_lines-header (suc n) ls (add_directive l new st)
                  ((add_directive-script l new st).2 ∙ e))
              ∙ read_directive l ls st d h))
    ]
  ]

  parse_line_later :
      (n m : ℕ) (l : Text) (st : State)
      → parse_line ps prefix (suc n) l st ≡ parse_line ps prefix (suc m) l st
  unfolding parse_line
  parse_line_later n m l st =
      let later : (k : ℕ) → (starts_with (codes "#!") l && suc k == 0) ≡ false =
        λ k. ground arith in
      rw (later n, later m) refl

  parse_lines_shift :
      (n m : ℕ) (ls : List Text) (st : State)
      → parse_lines ps prefix (suc n) ls st ≡ parse_lines ps prefix (suc m) ls st
  unfolding parse_lines parse_line
  parse_lines_shift n m [] st = refl
  parse_lines_shift n m (l ∷ ls) st = rw (parse_line_later n m l st) (
      >>=_congr (parse_line ps prefix (suc m) l st) _ _
        (λ next. parse_lines_shift (suc n) (suc m) ls next))

  parse_line_shift :
      (l : Text) (st : State)
      → starts_with (codes "#!") l ≡ false
      → parse_line ps prefix 0 l st ≡ parse_line ps prefix 1 l st
  unfolding parse_line
  parse_line_shift l st e = rw e refl

  parse_line-shebang :
      (l : Text) (st : State)
      → starts_with (codes "#!") l ≡ true
      → parse_line ps prefix 0 l st ≡ ok (record st { shebang = some (strip l) })
  unfolding parse_line
  parse_line-shebang l st e = rw e refl

  parse_lines-start :
      (ls : List Text)
      → parse_lines ps prefix 0 ls start
        ≡ read_header (after_shebang ls) (record start { shebang = shebang_of ls })
  unfolding parse_lines
  parse_lines-start [] = parse_lines-header 0 [] start refl
  parse_lines-start (l ∷ ls) = elim (Bool-cases (starts_with (codes "#!") l)) [
    | inl e ↦
        rw (e, parse_line-shebang l start e)
          (parse_lines-header 0 ls (record start { shebang = some (strip l) }) refl)
    | inr e ↦
        rw (e, parse_line_shift l start e)
          (>>=_congr (parse_line ps prefix 1 l start) _ _ (λ next. parse_lines_shift 0 1 ls next)
            ∙ parse_lines-header 0 (l ∷ ls) start refl)
  ]

  -- Reading a job script, on every outcome: the shebang is the first line if it starts with `#!`;
  -- the header is the longest run of lines behind it that are directives, comments or blank; of the
  -- directive lines those without a resource come first and those with a resource second, each in
  -- order, and then the second group of resources; the arguments are parsed in the order of the
  -- lines, with the errors of the two parsers passed on; the script is all that follows the header.
  pub parse_script-grouped :
      (file : Text)
      → let ls = after_shebang (read_lines file) in
        parse_script ps prefix file ≡ (do
          ds ← with_args (directive_lines prefix ls)
          parsed ← parse_known_args (all_args ds)
          ok (record {
            options = parsed.0;
            shebang = shebang_of (read_lines file);
            directives = (plain_directives ds ++ resource_directives ds) ++ hetjob;
            script = some (concat (body prefix ls));
            scheduler_options = none;
          }))
  unfolding parse_script
  parse_script-grouped file =
      rw (parse_lines-start (read_lines file))
        (>>=-assoc (with_args (directive_lines prefix (after_shebang (read_lines file)))) _ _)
