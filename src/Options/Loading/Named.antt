-- ===== src/Options/Loading/Named.antt =====
-- The names by which the code of a scheduler is found.
use worker_ng.Base.{◌≡◌, refl, sym, ap, ◌∙◌, List, [], ◌∷◌, ◌++◌, map, concat}
use mathlib.Core.List.{map-append}
use worker_ng.Text.{Text, codes}
use worker_ng.Errors.{ok}
use worker_ng.Options.Argparse.{Argparse}
use worker_ng.Options.CommandLine.{join}
use worker_ng.Options.Schedulers.{
  lower, capitalize, words, get_parser_class_info, submit_output_module,
}
use worker_ng.Options.Schedulers.Cases.{map-capitalize-lower}
use worker_ng.Options.Loading.{
  Scheduler, slurm, pbs_torque, parser_of, preprocessor_of, output_parser_of,
  get_scheduler_option_parser, get_scheduler_options_preprocessor, get_submit_output_parser,
  load_class, load_preprocessor, load_output_parser,
}

-- The words of a scheduler's name, in lower case.
abbrev pub name_words : Scheduler → List Text
name_words slurm = codes "slurm" ∷ []
name_words pbs_torque = codes "pbs" ∷ codes "torque" ∷ []

class_of_words :
    (ws : List Text) (s : Scheduler)
    → map lower ws ≡ name_words s
    → map capitalize ws ≡ map capitalize (name_words s)
class_of_words ws s e = sym (map-capitalize-lower ws) ∙ ap (map capitalize) e

get_parser_class_info-name_words :
    (s : Scheduler) (scheduler_name : Text)
    → map lower (words scheduler_name) ≡ name_words s
    → get_parser_class_info scheduler_name ≡ (
      concat
          (map capitalize (name_words s) ++ map capitalize (codes "option" ∷ codes "parser" ∷ [])),
      codes "worker."
          ++ (join (codes "_") (name_words s)
              ++ (codes "." ++ join (codes "_") (codes "option" ∷ codes "parser" ∷ []))),
    )
unfolding get_parser_class_info
get_parser_class_info-name_words s scheduler_name e =
    let ws = words scheduler_name in
    rw (map-append capitalize ws (codes "option" ∷ codes "parser" ∷ []), class_of_words ws s e, e)
      refl

submit_output_module-name_words :
    (s : Scheduler) (scheduler_name : Text)
    → map lower (words scheduler_name) ≡ name_words s
    → submit_output_module scheduler_name
      ≡ codes "worker." ++ (join (codes "_") (name_words s) ++ codes ".submit_output_parser")
unfolding submit_output_module
submit_output_module-name_words s scheduler_name e = rw e refl

-- A name whose words are those of a scheduler, in whatever case and with whatever white space, loads this
-- scheduler's option parser, its preprocessor of options and its parser of the submission's output.
pub get_scheduler-name_words :
    (a : Argparse) (s : Scheduler) (scheduler_name : Text)
    → map lower (words scheduler_name) ≡ name_words s
    → (get_scheduler_option_parser a scheduler_name ≡ ok (parser_of a s))
      × (get_scheduler_options_preprocessor scheduler_name ≡ ok (preprocessor_of s))
      × (get_submit_output_parser scheduler_name ≡ ok (output_parser_of s))
unfolding get_scheduler_option_parser get_scheduler_options_preprocessor get_submit_output_parser
    load_class load_preprocessor load_output_parser join
get_scheduler-name_words a slurm scheduler_name e =
    let info = get_parser_class_info-name_words slurm scheduler_name e in
    (
      ap (load_class a) info,
      ap load_preprocessor info,
      ap load_output_parser (submit_output_module-name_words slurm scheduler_name e),
    )
get_scheduler-name_words a pbs_torque scheduler_name e =
    let info = get_parser_class_info-name_words pbs_torque scheduler_name e in
    (
      ap (load_class a) info,
      ap load_preprocessor info,
      ap load_output_parser (submit_output_module-name_words pbs_torque scheduler_name e),
    )
