-- ===== src/Tests/Starts.antt =====
-- The start of the submitting script: the code of the scheduler, and a run without data.
use mathlib.Core.Path.{subst}
use worker_ng.Base.{
  ℤ, pos, ◌≡◌, refl, sym, ap, ◌∙◌, true, false, Option, none, some, List, [], ◌∷◌, ◌++◌, map, arith,
}
use worker_ng.Text.{Text, codes, text_eq, read_lines, is_space, starts_with}
use worker_ng.Text.Equality.{text_eq_iff}
use worker_ng.Dict.{lookup, insert}
use worker_ng.Errors.{Result, ok, ok_inj, err, Exception, attribute_error, file_not_found}
use worker_ng.DataSources.Aggregate
use worker_ng.Config.{Config}
use worker_ng.Artifacts.Paths.{FilePath, path_eq, is_under}
use worker_ng.Artifacts.{file, dir, FileSystem, World, Run, put, complain, exit, read_file}
use worker_ng.Options.{ParseData}
use worker_ng.Options.Slurm
use worker_ng.Options.CommandLine.{text_value}
use worker_ng.Options.Argparse.{Namespace, dest_of}
use worker_ng.Options.Schedulers.{lower, words, get_parser_class_info}
use worker_ng.Options.Parser.{
  SchedulerOptionParser, slurm_option_parser, pbs_torque_option_parser, parse_submit, cl_parser,
  submit_arguments,
}
use worker_ng.Options.Loading.{
  slurm, pbs_torque, preprocessor_of, output_parser_of, load_class, get_scheduler_option_parser,
  get_scheduler_options_preprocessor, get_submit_output_parser,
}
use worker_ng.Options.Loading.Named.{get_scheduler-name_words}
use worker_ng.Wsub.{WorkerOptions}
use worker_ng.Wsub.Script.{Configparser, worker_options, main, read_config_file}
use worker_ng.Wsub.Script.BatchFile.{main-batch_file}
use worker_ng.Wsub.Script.Failures.{Given, Configures, main-Restores}
use worker_ng.Tests.Parsers.{parsers, assigned}
use worker_ng.Tests.Requests.{csv}
use worker_ng.Tests.Jobscripts.{config}
use worker_ng.Tests.Submissions.{shell}
use worker_ng.Tests.Resubmission.{pathlib}

pbs-words : map lower (words (codes "PBS torque")) ≡ codes "pbs" ∷ codes "torque" ∷ []
unfolding words is_space
pbs-words = refl

get_scheduler-name_words_example :
    (get_scheduler_option_parser parsers (codes "PBS torque")
      ≡ ok (pbs_torque_option_parser parsers))
    × (get_scheduler_options_preprocessor (codes "PBS torque") ≡ ok (preprocessor_of pbs_torque))
    × (get_submit_output_parser (codes "PBS torque") ≡ ok (output_parser_of pbs_torque))
get_scheduler-name_words_example =
    get_scheduler-name_words parsers pbs_torque (codes "PBS torque") pbs-words

-- The name of the module finds the module, but not the class.
by_module : get_scheduler_option_parser parsers (codes "pbs_torque") ≡ err attribute_error
unfolding get_scheduler_option_parser words load_class get_parser_class_info is_space
by_module = refl

abbrev pub configparser : Configparser
configparser = record { read = λ content. ok config }

abbrev pub message : Exception → Text
message e = codes "no data"

abbrev pub int_value : Text → ℤ
int_value s = pos 1

abbrev args : List Text
args = codes "--batch" ∷ codes "job.sh" ∷ []

abbrev files : FileSystem
files =
    put (codes "conf" ∷ codes "worker.conf" ∷ []) (file [])
      (put (codes "job.sh" ∷ []) (file (codes "x\n")) (put [] dir (λ p. none)))

abbrev world : World
world = record { files = files; stdout = []; stderr = [] }

abbrev scheduler : SchedulerOptionParser
scheduler = slurm_option_parser parsers

abbrev pub or_else {ℓ} : {A : Type ℓ} → A → Result A → A
or_else default (ok a) = a
or_else default (err e) = default

abbrev pub empty : ParseData Namespace
empty = record {
  options = [];
  shebang = none;
  directives = [];
  script = none;
  scheduler_options = none;
}

abbrev parsed : ParseData Namespace
parsed = or_else empty (parse_submit parsers pathlib files scheduler args)

parsed-ok : parse_submit parsers pathlib files scheduler args ≡ ok parsed
unfolding parse_submit put path_eq lookup insert assigned dest_of text_eq starts_with
    Slurm.parse_script read_lines is_space Slurm.parse_line
parsed-ok = refl

pub slurm-words : map lower (words (codes "slurm")) ≡ codes "slurm" ∷ []
unfolding words is_space
slurm-words = refl

loaded : get_scheduler_option_parser parsers config.scheduler.name ≡ ok scheduler
loaded = (get_scheduler-name_words parsers slurm (codes "slurm") slurm-words).0

debug_off :
    (options : WorkerOptions)
    → worker_options int_value parsed.options ≡ ok options
    → options.is_debug ≡ false
unfolding worker_options parse_submit put path_eq lookup insert assigned dest_of text_eq starts_with
    Slurm.parse_script read_lines is_space Slurm.parse_line
debug_off options e = sym (ap (λ (o : WorkerOptions). o.is_debug) (ok_inj e))

abbrev RunGiven : WorkerOptions → Type 0
RunGiven =
    Given csv shell parsers pathlib configparser message int_value [] [] (codes "1") args world

-- Whatever the run is given is what is computed above.
given-debug : (options : WorkerOptions) → RunGiven options → options.is_debug ≡ false
unfolding read_config_file
given-debug options g =
    let same : config ≡ g.config = ok_inj g.configured in
    let parser : ok scheduler ≡ ok g.scheduler_option_parser =
      sym loaded
      ∙ (ap (λ (k : Config). get_scheduler_option_parser parsers k.scheduler.name) same
          ∙ g.loaded) in
    let result : ok parsed ≡ ok g.parser_result =
      sym parsed-ok
      ∙ (ap (λ (s : SchedulerOptionParser). parse_submit parsers pathlib files s args)
            (ok_inj parser)
          ∙ g.parsed) in
    debug_off options (
      ap (λ (r : ParseData Namespace). worker_options int_value r.options) (ok_inj result)
      ∙ g.attributes)

nothing_there : (q : FilePath) → is_under (codes "worker_1" ∷ []) q ≡ true → files q ≡ none
unfolding is_under put path_eq text_eq
nothing_there [] h = cc
nothing_there (c ∷ q) h =
    let same : codes "worker_1" ≡ c = (text_eq_iff (codes "worker_1") c).0 (ground arith) in
    subst (λ (d : Text). files (d ∷ q) ≡ none) same refl

nothing_configured :
    (k : Config) (q : FilePath)
    → Configures csv shell parsers pathlib configparser message int_value [] []
        (codes "1")
        args
        world
        k
    → is_under ([] ++ (k.worker.tempdir_prefix ++ codes "1") ∷ []) q ≡ true
    → files q ≡ none
unfolding read_config_file
nothing_configured k q c u =
    let same : config ≡ k = ok_inj c in
    nothing_there q (
      subst (λ (d : Config). is_under ((d.worker.tempdir_prefix ++ codes "1") ∷ []) q ≡ true)
        (sym same) u)

abbrev run : Option Run
run = main csv shell parsers pathlib configparser message int_value [] [] (codes "1") args world

abbrev world_after : Option Run → World
world_after none = world
world_after (some (w, ending)) = w

run-failed : run ≡ some (world_after run, exit 10)
unfolding main get_scheduler_option_parser words path_eq text_eq load_class get_parser_class_info
    is_space assigned starts_with Slurm.parse_script read_lines Slurm.parse_line Aggregate.init
    worker_ng.Format.format worker_ng.Artifacts.create_tempdir
run-failed = refl

main-Restores_example : (world_after run).files (codes "worker_1" ∷ []) ≡ none
unfolding put path_eq text_eq
main-Restores_example =
    main-Restores csv shell parsers pathlib configparser message int_value [] [] (codes "1") args
      world (world_after run) 9 given-debug nothing_configured run-failed (codes "worker_1" ∷ [])

-- A batch file that is not there.
abbrev other_args : List Text
other_args = codes "--batch" ∷ codes "none.sh" ∷ []

abbrev other_options : Namespace
other_options = assigned (cl_parser scheduler submit_arguments).arguments other_args []

others-named :
    (lookup (codes "script") other_options ≡ some (text_value (codes "none.sh")))
    × (lookup (codes "directive_prefix") other_options ≡ some (text_value (codes "#SBATCH")))
unfolding lookup insert assigned dest_of text_eq starts_with
others-named = (refl, refl)

others-missing : read_file files (codes "none.sh" ∷ []) ≡ err file_not_found
unfolding read_file put path_eq text_eq
others-missing = refl

configured :
    read_config_file configparser files (codes "conf" ∷ codes "worker.conf" ∷ []) ≡ ok config
unfolding read_config_file
configured = refl

config-there : files (codes "conf" ∷ codes "worker.conf" ∷ []) ≡ some (file [])
unfolding put path_eq text_eq
config-there = refl

main-batch_file_example :
    main csv shell parsers pathlib configparser message int_value [] [] (codes "1") other_args world
    ≡ some (
      complain (codes "error: " ++ (codes "batch file issue, " ++ codes "no data")) world,
      exit 2,
    )
main-batch_file_example =
    main-batch_file csv shell parsers pathlib configparser message int_value [] [] (codes "1")
      other_args world config slurm (file []) other_args other_options (codes "none.sh")
      (codes "#SBATCH") config-there configured slurm-words refl others-named.0 others-named.1
      others-missing
