-- ===== src/Wsub/Script/Failures.antt =====
-- What a failed run leaves, from the command line on.
use mathlib.Core.Path.{subst}
use worker_ng.Base.{
  ℕ, suc, ◌≡◌, refl, ap, ◌∙◌, true, false, Option, none, some, some_inj, List, [], ◌∷◌, ◌++◌, ℤ,
  inl, inr, All-In, In,
}
use worker_ng.Text.{Text, codes}
use worker_ng.Errors.{
  Result, ok, err, Exception, WorkerError, config_error, batch_file_error, scheduler_option_error,
  file_not_found, argument_error,
}
use worker_ng.DataSources.Csv.{CsvModule}
use worker_ng.Config.{Config}
use worker_ng.Artifacts.Paths.{FilePath, is_under}
use worker_ng.Artifacts.{Entry, FileSystem, World, exit, raised, Run, Ending, exit_on_error}
use worker_ng.Artifacts.Exits.{message_args, introductions, Reports, exit_on_error-Reports}
use worker_ng.Options.{ParseData}
use worker_ng.Options.Argparse.{Namespace, Argparse}
use worker_ng.Options.Parser.{SchedulerOptionParser, Pathlib, parse_submit}
use worker_ng.Options.Loading.{get_scheduler_option_parser}
use worker_ng.Submission.{Shell}
use worker_ng.Wsub.{WorkerOptions}
use worker_ng.Wsub.Changes.{IsRestored, raised-IsRestored}
use worker_ng.Wsub.CleanUp.{wsub-Restores}
use worker_ng.Wsub.Script.{
  Configparser, refused, after_options, after_parse, after_loading, after_config, when_configured,
  config_path, main, with_path, read_config_file, worker_options,
}

reported-IsRestored :
    (error : WorkerError) (introduction msg : Text) (w : World)
    → In (error, introduction) introductions
    → IsRestored w.files (exit_on_error error none (message_args msg) w)
unfolding IsRestored
reported-IsRestored error introduction msg w member =
    let reports =
      All-In Reports (error, introduction) introductions exit_on_error-Reports.0 member in
    rw (reports none msg w) (λ n e q. refl)

-- What is restored, where a run has come to an end.
AllRestored : FileSystem → Option Run → Type 0
AllRestored before o = (r : Run) → o ≡ some r → IsRestored before r

some-AllRestored :
    (before : FileSystem) (r : Run) → IsRestored before r → AllRestored before (some r)
unfolding AllRestored
some-AllRestored before r h s e = subst (IsRestored before) (some_inj e) h

module _ (csv : CsvModule) (shell : Shell) (a : Argparse) (pathlib : Pathlib)
    (configparser : Configparser) (message : Exception → Text) (int_value : Text → ℤ)
    (distr_path cwd : FilePath) (uuid : Text) (args : List Text) where
  -- The configuration and the options that a run comes to.
  abbrev pub Configures : World → Config → Type 0
  Configures w config = read_config_file configparser w.files (config_path distr_path) ≡ ok config

  pub record Given (w : World) (options : WorkerOptions) : Type 0 where
    pub config : Config
    pub scheduler_option_parser : SchedulerOptionParser
    pub parser_result : ParseData Namespace
    pub configured : Configures w config
    pub loaded : get_scheduler_option_parser a config.scheduler.name ≡ ok scheduler_option_parser
    pub parsed : parse_submit a pathlib w.files scheduler_option_parser args ≡ ok parser_result
    pub attributes : worker_options int_value parser_result.options ≡ ok options

  module _ (w : World)
      (debug : (options : WorkerOptions) → Given w options → options.is_debug ≡ false)
      (fresh : (config : Config) (q : FilePath)
        → Configures w config
        → is_under (cwd ++ (config.worker.tempdir_prefix ++ uuid) ∷ []) q ≡ true
        → w.files q ≡ none) where
    refused-IsRestored :
        (e : Exception)
        → IsRestored w.files
            (refused csv shell a pathlib configparser message int_value distr_path cwd e w)
    refused-IsRestored file_not_found =
        reported-IsRestored batch_file_error (codes "batch file issue, ") (message file_not_found) w
          (inr (inl refl))
    refused-IsRestored argument_error =
        reported-IsRestored scheduler_option_error (codes "invalid scheduler argument, ")
          (message argument_error) w (inr (inr (inr (inl refl))))
    refused-IsRestored e = raised-IsRestored w.files w e

    after_options-AllRestored :
        (config : Config) (s : SchedulerOptionParser) (parser_result : ParseData Namespace)
        (r : Result WorkerOptions)
        → Configures w config
        → get_scheduler_option_parser a config.scheduler.name ≡ ok s
        → parse_submit a pathlib w.files s args ≡ ok parser_result
        → worker_options int_value parser_result.options ≡ r
        → AllRestored w.files (
            after_options csv shell a pathlib configparser message int_value distr_path cwd uuid
              (with_path distr_path config)
              parser_result
              r
              w)
    unfolding AllRestored IsRestored
    after_options-AllRestored config s parser_result (err e) c l p o =
        some-AllRestored w.files (w, raised e) (raised-IsRestored w.files w e)
    after_options-AllRestored config s parser_result (ok options) c l p o = λ r e n f q.
        let given : Given w options = record {
          config = config;
          scheduler_option_parser = s;
          parser_result = parser_result;
          configured = c;
          loaded = l;
          parsed = p;
          attributes = o;
        } in
        wsub-Restores csv shell _ message pathlib.place _ cwd (with_path distr_path config) _ _ _
          uuid w r.0 n (debug options given) (λ q' u. fresh config q' c u)
          (e ∙ ap (λ (ending : Ending). some (r.0, ending)) f) q

    after_parse-AllRestored :
        (config : Config) (s : SchedulerOptionParser) (r : Result (ParseData Namespace))
        → Configures w config
        → get_scheduler_option_parser a config.scheduler.name ≡ ok s
        → parse_submit a pathlib w.files s args ≡ r
        → AllRestored w.files (
            after_parse csv shell a pathlib configparser message int_value distr_path cwd uuid
              (with_path distr_path config)
              r
              w)
    after_parse-AllRestored config s (err e) c l p =
        some-AllRestored w.files _ (refused-IsRestored e)
    after_parse-AllRestored config s (ok parser_result) c l p =
        after_options-AllRestored config s parser_result
          (worker_options int_value parser_result.options) c l p refl

    after_loading-AllRestored :
        (config : Config) (r : Result SchedulerOptionParser)
        → Configures w config
        → get_scheduler_option_parser a config.scheduler.name ≡ r
        → AllRestored w.files (
            after_loading csv shell a pathlib configparser message int_value distr_path cwd uuid
              args
              (with_path distr_path config)
              r
              w)
    after_loading-AllRestored config (err e) c l =
        some-AllRestored w.files (w, raised e) (raised-IsRestored w.files w e)
    after_loading-AllRestored config (ok s) c l =
        after_parse-AllRestored config s (parse_submit a pathlib w.files s args) c l refl

    after_config-AllRestored :
        (r : Result Config)
        → read_config_file configparser w.files (config_path distr_path) ≡ r
        → AllRestored w.files (
            after_config csv shell a pathlib configparser message int_value distr_path cwd uuid args
              r w)
    after_config-AllRestored (err e) c =
        some-AllRestored w.files (w, raised e) (raised-IsRestored w.files w e)
    after_config-AllRestored (ok config) c =
        after_loading-AllRestored config (get_scheduler_option_parser a config.scheduler.name) c
          refl

    when_configured-AllRestored :
        (o : Option Entry)
        → AllRestored w.files (
            when_configured csv shell a pathlib configparser message int_value distr_path cwd uuid
              args o w)
    when_configured-AllRestored none =
        some-AllRestored w.files _
          (reported-IsRestored config_error (codes "worker configuration issue, ") _ w (inl refl))
    when_configured-AllRestored (some entry) = after_config-AllRestored _ refl

  -- From the command line on: where the directory that the script makes is new, nothing has been there, and
  -- debug mode is off, and the script ends with a status other than zero, for an error of the configuration,
  -- the batch file, the scheduler's options, the data or the submission, every file is as it was before.
  pub main-Restores :
      (w w' : World) (n : ℕ)
      → ((options : WorkerOptions) → Given w options → options.is_debug ≡ false)
      → ((config : Config) (q : FilePath)
          → Configures w config
          → is_under (cwd ++ (config.worker.tempdir_prefix ++ uuid) ∷ []) q ≡ true
          → w.files q ≡ none)
      → main csv shell a pathlib configparser message int_value distr_path cwd uuid args w
        ≡ some (w', exit (suc n))
      → (q : FilePath) → w'.files q ≡ w.files q
  unfolding main AllRestored IsRestored
  main-Restores w w' n debug fresh e =
      when_configured-AllRestored w debug fresh (w.files (config_path distr_path))
        (w', exit (suc n)) e n refl
