-- ===== src/Options/PbsTorque/Reading.antt =====
-- What `_parse_script` of the PBS torque parser makes of a job script.
use worker_ng.Base.{
  ℕ, suc, ◌≡◌, refl, sym, ◌∙◌, true, false, ◌&&◌, none, some, List, [], ◌∷◌, ◌++◌, append-nil,
  append_assoc, concat, ◌==◌, arith, Bool-cases, inl, inr,
}
use worker_ng.Text.{Text, codes, starts_with, strip, read_lines}
use worker_ng.Errors.{Result, ok, err, ◌>>=◌, >>=-assoc, >>=_congr}
use worker_ng.Options.{Parsers}
use worker_ng.Options.Headers.{
  is_header_line, header, body, shebang_of, after_shebang, directive_lines, line_args,
  directive_args, is_empty,
}
use worker_ng.Options.PbsTorque.{State, start, parse_line, parse_lines, parse_script}

module _ (ps : Parsers) (prefix : Text) where
  open ps use {parse_known_args}

  parse_line-body :
      (n : ℕ) (l : Text) (st : State)
      → st.parsing_pbs ≡ false
      → parse_line ps prefix (suc n) l st
        ≡ ok (record st { script = st.script ++ l; parsing_pbs = false })
  unfolding parse_line
  parse_line-body n l st e = ground arith

  parse_line-script :
      (n : ℕ) (l : Text) (st : State)
      → is_header_line prefix l ≡ false
      → parse_line ps prefix (suc n) l st
        ≡ ok (record st { script = st.script ++ l; parsing_pbs = false })
  unfolding parse_line
  parse_line-script n l st e = ground arith

  parse_line-comment :
      (n : ℕ) (l : Text) (st : State)
      → is_header_line prefix l ≡ true
      → starts_with prefix l ≡ false
      → st.parsing_pbs ≡ true
      → parse_line ps prefix (suc n) l st ≡ ok st
  unfolding parse_line
  parse_line-comment n l st h d e = ground arith

  parse_line-directive :
      (n : ℕ) (l : Text) (st : State)
      → starts_with prefix l ≡ true
      → st.parsing_pbs ≡ true
      → parse_line ps prefix (suc n) l st ≡ (do
        new ← line_args prefix l
        ok (record st { args = st.args ++ new; pbs_directives = st.pbs_directives ++ l }))
  unfolding parse_line
  parse_line-directive n l st d e = ground arith

  -- After the header every line goes to the script.
  parse_lines-body :
      (n : ℕ) (ls : List Text) (st : State)
      → st.parsing_pbs ≡ false
      → parse_lines ps prefix (suc n) ls st
        ≡ ok (record st { script = st.script ++ concat ls; parsing_pbs = false })
  unfolding parse_lines
  parse_lines-body n [] st e = cc (e, append-nil st.script)
  parse_lines-body n (l ∷ ls) st e =
      rw
        (
          parse_line-body n l st e,
          parse_lines-body (suc n) ls (record st { script = st.script ++ l; parsing_pbs = false })
              refl,
          append_assoc,
        )
        refl

  abbrev read_header : List Text → State → Result State
  read_header ls st = do
    new ← directive_args prefix (directive_lines prefix ls)
    ok (record st {
      args = st.args ++ new;
      pbs_directives = st.pbs_directives ++ concat (directive_lines prefix ls);
      script = st.script ++ concat (body prefix ls);
      parsing_pbs = is_empty (body prefix ls);
    })

  -- The step of the induction for a directive line, given the arguments of the later ones.
  read_directive_rest :
      (l : Text) (ls : List Text) (st : State) (new : List Text) (q : Result (List Text))
      → (q >>= (λ rest. ok (record st {
        args = (st.args ++ new) ++ rest;
        pbs_directives = (st.pbs_directives ++ l) ++ concat (directive_lines prefix ls);
        script = st.script ++ concat (body prefix ls);
        parsing_pbs = is_empty (body prefix ls);
      })))
        ≡ (q >>= (λ rest. ok (new ++ rest)) >>= (λ a. ok (record st {
          args = st.args ++ a;
          pbs_directives = st.pbs_directives ++ (l ++ concat (directive_lines prefix ls));
          script = st.script ++ concat (body prefix ls);
          parsing_pbs = is_empty (body prefix ls);
        })))
  read_directive_rest l ls st new (ok rest) = simp append_assoc
  read_directive_rest l ls st new (err e) = refl

  read_directive :
      (l : Text) (ls : List Text) (st : State)
      → starts_with prefix l ≡ true
      → is_header_line prefix l ≡ true
      → (line_args prefix l >>= (λ new.
          read_header ls
            (record st { args = st.args ++ new; pbs_directives = st.pbs_directives ++ l })))
        ≡ read_header (l ∷ ls) st
  unfolding directive_args header body
  read_directive l ls st d h =
      let q = directive_args prefix (directive_lines prefix ls) in
      rw (h, d)
        (>>=_congr (line_args prefix l) _ _ (λ new. read_directive_rest l ls st new q)
          ∙ sym (>>=-assoc (line_args prefix l) (λ new. q >>= (λ rest. ok (new ++ rest))) _))

  parse_lines-header :
      (n : ℕ) (ls : List Text) (st : State)
      → st.parsing_pbs ≡ true
      → parse_lines ps prefix (suc n) ls st ≡ read_header ls st
  unfolding parse_lines header body directive_args
  parse_lines-header n [] st e =
      cc (e, append-nil st.args, append-nil st.pbs_directives, append-nil st.script)
  parse_lines-header n (l ∷ ls) st e = elim (Bool-cases (is_header_line prefix l)) [
    | inr h ↦ rw (parse_line-script n l st h) (
        parse_lines-body (suc n) ls (record st { script = st.script ++ l; parsing_pbs = false })
          refl
        ∙ rw h (
            cc (
              append-nil st.args,
              append-nil st.pbs_directives,
              append_assoc st.script l (concat ls),
            )))
    | inl h ↦ elim (Bool-cases (starts_with prefix l)) [
      | inr d ↦ rw (parse_line-comment n l st h d e, parse_lines-header (suc n) ls st e, h, d) refl
      | inl d ↦ rw (parse_line-directive n l st d e) (
          >>=-assoc (line_args prefix l) _ _
          ∙ (>>=_congr (line_args prefix l) _ _ (λ new.
                parse_lines-header (suc n) ls
                  (record st { args = st.args ++ new; pbs_directives = st.pbs_directives ++ l }) e)
              ∙ read_directive l ls st d h))
    ]
  ]

  parse_line_later :
      (n m : ℕ) (l : Text) (st : State)
      → parse_line ps prefix (suc n) l st ≡ parse_line ps prefix (suc m) l st
  unfolding parse_line
  parse_line_later n m l st =
      let later : (k : ℕ) → (starts_with (codes "#!") l && suc k == 0) ≡ false =
        λ k. ground arith in
      rw (later n, later m) refl

  parse_lines_shift :
      (n m : ℕ) (ls : List Text) (st : State)
      → parse_lines ps prefix (suc n) ls st ≡ parse_lines ps prefix (suc m) ls st
  unfolding parse_lines parse_line
  parse_lines_shift n m [] st = refl
  parse_lines_shift n m (l ∷ ls) st = rw (parse_line_later n m l st) (
      >>=_congr (parse_line ps prefix (suc m) l st) _ _
        (λ next. parse_lines_shift (suc n) (suc m) ls next))

  parse_line_shift :
      (l : Text) (st : State)
      → starts_with (codes "#!") l ≡ false
      → parse_line ps prefix 0 l st ≡ parse_line ps prefix 1 l st
  unfolding parse_line
  parse_line_shift l st e = rw e refl

  parse_line-shebang :
      (l : Text) (st : State)
      → starts_with (codes "#!") l ≡ true
      → parse_line ps prefix 0 l st ≡ ok (record st { shebang = some (strip l) })
  unfolding parse_line
  parse_line-shebang l st e = rw e refl

  parse_lines-start :
      (ls : List Text)
      → parse_lines ps prefix 0 ls start
        ≡ read_header (after_shebang ls) (record start { shebang = shebang_of ls })
  unfolding parse_lines
  parse_lines-start [] = parse_lines-header 0 [] start refl
  parse_lines-start (l ∷ ls) = elim (Bool-cases (starts_with (codes "#!") l)) [
    | inl e ↦
        rw (e, parse_line-shebang l start e)
          (parse_lines-header 0 ls (record start { shebang = some (strip l) }) refl)
    | inr e ↦
        rw (e, parse_line_shift l start e)
          (>>=_congr (parse_line ps prefix 1 l start) _ _ (λ next. parse_lines_shift 0 1 ls next)
            ∙ parse_lines-header 0 (l ∷ ls) start refl)
  ]

  -- Reading a job script, on every outcome: the shebang is the first line if it starts with `#!`;
  -- the header is the longest run of lines behind it that are directives, comments or blank; the
  -- directives are the directive lines of the header and their arguments are parsed in order, with
  -- the errors of the two parsers passed on; the script is all that follows the header.
  pub parse_script_lem :
      (file : Text)
      → let ls = after_shebang (read_lines file) in
        parse_script ps prefix file ≡ (do
          args ← directive_args prefix (directive_lines prefix ls)
          parsed ← parse_known_args args
          ok (record {
            options = parsed.0;
            shebang = shebang_of (read_lines file);
            directives = concat (directive_lines prefix ls);
            script = some (concat (body prefix ls));
            scheduler_options = none;
          }))
  unfolding parse_script
  parse_script_lem file = rw (parse_lines-start (read_lines file)) (
      >>=-assoc (directive_args prefix (directive_lines prefix (after_shebang (read_lines file)))) _
        _)
