-- ===== src/Options/CommandLine.antt =====
-- Options on their way to the submission command of the resumed job: `_options_dict2list` of
-- scripts/worker/option_parser.py, `expand_options` of scripts/worker/utils.py and
-- `preprocess_cli_options` of scripts/worker/slurm/option_parser.py.
use worker_ng.Base.{◌≡◌, refl, true, false, List, [], ◌∷◌, ◌++◌, concat, map, All, if◌then◌else◌}
use worker_ng.Text.{Text, codes, split, starts_with}

-- The values that `argparse` leaves in a namespace.
pub data Value : Type 0 where
  none_value false_value true_value : Value
  list_value : List Text → Value
  text_value : Text → Value

-- `sep.join(parts)`
unfoldable pub join : Text → List Text → Text
join sep [] = []
join sep (p ∷ []) = p
join sep (p ∷ q ∷ ps) = p ++ sep ++ join sep (q ∷ ps)

-- What the loop of `_options_dict2list` appends for one option.
unfoldable pub option_args : Text × Value → List Text
unfolding join
option_args (key, none_value) = []
option_args (key, false_value) = []
option_args (key, true_value) = (codes "-" ++ key) ∷ []
option_args (key, list_value values) = (codes "-" ++ key) ∷ join (codes ",") values ∷ []
option_args (key, text_value value) = (codes "-" ++ key) ∷ value ∷ []

unfoldable pub options_dict2list : List (Text × Value) → List Text
unfolding option_args
options_dict2list options = concat (map option_args options)

-- Slurm's: an option and the value behind it become one argument; the value is not looked at again.
unfoldable pub preprocess_cli_options : List Text → List Text
preprocess_cli_options [] = []
preprocess_cli_options (item ∷ []) =
    if starts_with (codes "-") item then (codes "-" ++ item) ∷ [] else []
preprocess_cli_options (item ∷ value ∷ rest) =
    let further = preprocess_cli_options (value ∷ rest) in
    let pair = (codes "-" ++ item ++ codes "=" ++ value) ∷ preprocess_cli_options rest in
    let flag = (codes "-" ++ item) ∷ further in
    if starts_with (codes "-") item
    then (if starts_with (codes "-") value then flag else pair)
    else further

-- `expand_options`
unfoldable pub expand_options : List Text → List Text
expand_options [] = []
expand_options (option ∷ options) = split b',' option ++ expand_options options

-- A value that is not taken for an option.
abbrev pub IsPlain : Text × Value → Type 0
IsPlain (key, none_value) = Unit
IsPlain (key, false_value) = Unit
IsPlain (key, true_value) = Unit
IsPlain (key, list_value values) = starts_with (codes "-") (join (codes ",") values) ≡ false
IsPlain (key, text_value value) = starts_with (codes "-") value ≡ false

-- The long form of an option: `--key`, or `--key=value`.
abbrev pub long_option : Text × Value → List Text
long_option (key, none_value) = []
long_option (key, false_value) = []
long_option (key, true_value) = (codes "--" ++ key) ∷ []
long_option (key, list_value values) =
    (codes "--" ++ key ++ codes "=" ++ join (codes ",") values) ∷ []
long_option (key, text_value value) = (codes "--" ++ key ++ codes "=" ++ value) ∷ []

abbrev pub StartsWithOption : List Text → Type 0
StartsWithOption [] = Unit
StartsWithOption (item ∷ rest) = starts_with (codes "-") item ≡ true

options_dict2list-StartsWithOption :
    (options : List (Text × Value)) → StartsWithOption (options_dict2list options)
unfolding options_dict2list option_args starts_with
options_dict2list-StartsWithOption [] = tt
options_dict2list-StartsWithOption ((key, none_value) ∷ options) =
    options_dict2list-StartsWithOption options
options_dict2list-StartsWithOption ((key, false_value) ∷ options) =
    options_dict2list-StartsWithOption options
options_dict2list-StartsWithOption ((key, true_value) ∷ options) = refl
options_dict2list-StartsWithOption ((key, list_value values) ∷ options) = refl
options_dict2list-StartsWithOption ((key, text_value value) ∷ options) = refl

preprocess_flag :
    (key : Text) (rest : List Text)
    → StartsWithOption rest
    → preprocess_cli_options ((codes "-" ++ key) ∷ rest)
      ≡ (codes "--" ++ key) ∷ preprocess_cli_options rest
unfolding preprocess_cli_options starts_with
preprocess_flag key [] h = refl
preprocess_flag key (item ∷ rest) h = rw h refl

-- Preprocessing the listed options of a resumed job: where no value starts with a dash, the result
-- has each option that is set in its long form, with its value, in order.
pub preprocess_cli_options-options_dict2list :
    (options : List (Text × Value))
    → All IsPlain options
    → preprocess_cli_options (options_dict2list options) ≡ concat (map long_option options)
unfolding preprocess_cli_options options_dict2list option_args starts_with
preprocess_cli_options-options_dict2list [] h = refl
preprocess_cli_options-options_dict2list ((key, none_value) ∷ options) (_, h) =
    preprocess_cli_options-options_dict2list options h
preprocess_cli_options-options_dict2list ((key, false_value) ∷ options) (_, h) =
    preprocess_cli_options-options_dict2list options h
preprocess_cli_options-options_dict2list ((key, true_value) ∷ options) (_, h) =
    rw
      (
        preprocess_flag key (options_dict2list options)
            (options_dict2list-StartsWithOption options),
        preprocess_cli_options-options_dict2list options h,
      )
      refl
preprocess_cli_options-options_dict2list ((key, list_value values) ∷ options) (p, h) =
    rw (p, preprocess_cli_options-options_dict2list options h) refl
preprocess_cli_options-options_dict2list ((key, text_value value) ∷ options) (p, h) =
    rw (p, preprocess_cli_options-options_dict2list options h) refl
