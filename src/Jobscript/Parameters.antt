-- ===== src/Jobscript/Parameters.antt =====
-- Job scripts from templates whose fields are parameters of the script.
use worker_ng.Base.{
  ℕ, ◌≡◌, refl, ap, Bool, true, Option, none, List, [], ◌∷◌, ◌++◌, arith, All, All-mono, inl, In,
  All-In, not, ◌&&◌,
}
use worker_ng.Text.{Text, codes, newline, text_eq}
use worker_ng.Dict.{Dict, lookup}
use worker_ng.Errors.{ok}
use worker_ng.Format.{get_value}
use worker_ng.Format.Templates.{
  Part, literal, field, template, render, is_brace, HasNoBrace, IsName, format-template,
}
use worker_ng.Config.{Config}
use worker_ng.Workfile.{print}
use worker_ng.Artifacts.Paths.{FilePath}
use worker_ng.Jobscript.{JobOptions, templ_params, create_jobscript, shebang_text}

-- The fields that a template may have.
abbrev pub parameter_names : List Text
parameter_names =
    codes "shebang"
    ∷ codes "scheduler_directives"
    ∷ codes "worker_path"
    ∷ codes "server_info"
    ∷ codes "server_log_opt"
    ∷ codes "port_opt"
    ∷ codes "server_start_delay"
    ∷ codes "workfile"
    ∷ codes "client_log_prefix_opt"
    ∷ codes "env_var_exprs"
    ∷ codes "num_cores"
    ∷ codes "exit_on_client_fail"
    ∷ []

abbrev pub IsParameter : Part → Type 0
IsParameter (literal s) = Unit
IsParameter (field name) = In name parameter_names

no_brace : Text → Bool
no_brace [] = true
no_brace (c ∷ s) = not (is_brace c) && no_brace s

no_brace-HasNoBrace : (s : Text) → no_brace s ≡ true → HasNoBrace s
unfolding no_brace
no_brace-HasNoBrace [] h = tt
no_brace-HasNoBrace (c ∷ s) h = (ground arith, no_brace-HasNoBrace s (ground arith))

module _ (cwd : FilePath) (options : JobOptions) (config : Config) where
  abbrev params : Dict
  params = templ_params cwd options config

  -- A field that has a name and a value.
  IsGiven : Text → Type 0
  IsGiven name = IsName (field name) × ((value : Text) × (get_value params name ≡ ok value))

  given :
      (c : ℕ) (name value : Text)
      → no_brace (c ∷ name) ≡ true
      → get_value params (c ∷ name) ≡ ok value
      → IsGiven (c ∷ name)
  unfolding IsGiven
  given c name value plain e = (((λ z. cc), no_brace-HasNoBrace (c ∷ name) plain), (value, e))

  parameters-IsGiven : All IsGiven parameter_names
  unfolding templ_params get_value lookup text_eq no_brace
  parameters-IsGiven = (
    given _ _ _ refl refl,
    (
      given _ _ _ refl refl,
      (
        given _ _ _ refl refl,
        (
          given _ _ _ refl refl,
          (
            given _ _ _ refl refl,
            (
              given _ _ _ refl refl,
              (
                given _ _ _ refl refl,
                (
                  given _ _ _ refl refl,
                  (
                    given _ _ _ refl refl,
                    (given _ _ _ refl refl, (given _ _ _ refl refl, (given _ _ _ refl refl, tt))),
                  ),
                ),
              ),
            ),
          ),
        ),
      ),
    ),
  )

  IsParameter-IsGiven : (name : Text) → In name parameter_names → IsGiven name
  IsParameter-IsGiven name m = All-In IsGiven name parameter_names parameters-IsGiven m

  IsParameter-IsName : (p : Part) → IsParameter p → IsName p
  unfolding IsGiven
  IsParameter-IsName (literal s) h = tt
  IsParameter-IsName (field name) h = (IsParameter-IsGiven name h).0

  render_total :
      (ps : List Part) → All IsParameter ps → (text : Text) × (render params ps ≡ ok text)
  unfolding render IsGiven
  render_total [] h = ([], refl)
  render_total (literal s ∷ ps) (_, h) = let (text, e) = render_total ps h in (s ++ text, rw e refl)
  render_total (field name ∷ ps) (m, h) =
      let (text, e) = render_total ps h in
      let (_, (value, f)) = IsParameter-IsGiven name m in (value ++ text, rw (f, e) refl)

  -- A template whose fields are all among the parameters never raises: the job script is written, and
  -- it is the template's text with the values of the fields, in order, and a newline.
  pub create_jobscript-template :
      (ps : List Part)
      → All IsParameter ps
      → (text : Text) × (render params ps ≡ ok text)
        × (create_jobscript cwd options (template ps) config ≡ ok (print text))
  unfolding create_jobscript
  create_jobscript-template ps h =
      let (text, e) = render_total ps h in
      let names = All-mono ps IsParameter-IsName h in
      (text, e, rw (format-template params ps names, e) refl)

-- From a batch script without a shebang, with a template that begins with the shebang's field and a
-- newline, as the templates of the repository do, the first line of the job script is `None`.
pub create_jobscript-None :
    (cwd : FilePath) (options : JobOptions) (config : Config) (ps : List Part)
    → options.shebang ≡ none
    → All IsParameter ps
    → (rest : Text) × (create_jobscript cwd options
          (template (field (codes "shebang") ∷ literal (newline ∷ []) ∷ ps))
          config
        ≡ ok (codes "None" ++ newline ∷ rest))
unfolding render create_jobscript templ_params get_value lookup text_eq
create_jobscript-None cwd options config ps missing h =
    let (text, e) = render_total cwd options config ps h in
    let all = field (codes "shebang") ∷ literal (newline ∷ []) ∷ ps in
    let names = All-mono all (IsParameter-IsName cwd options config) (inl refl, (tt, h)) in
    (
      print text,
      rw (format-template (templ_params cwd options config) all names, e)
          (ap (λ (o : Option Text). ok (print (shebang_text o ++ newline ∷ text))) missing),
    )
