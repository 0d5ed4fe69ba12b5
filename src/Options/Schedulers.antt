-- ===== src/Options/Schedulers.antt =====
-- `_get_parser_class_info` of scripts/worker/option_parser.py and the module name in
-- scripts/worker/submit_output_parser.py: where the code of a scheduler is found, by its name. Letters
-- are those of ASCII.
pub mod Cases
use worker_ng.Base.{ℕ, ◌+◌, ◌-◌, ◌&&◌, List, [], ◌∷◌, ◌++◌, map, concat, if◌then◌else◌, leb}
use worker_ng.Text.{Text, codes, is_space}
use worker_ng.Options.CommandLine.{join}

abbrev pub lower_char : ℕ → ℕ
lower_char c = if leb b'A' c && leb c b'Z' then c + 32 else c

abbrev pub upper_char : ℕ → ℕ
upper_char c = if leb b'a' c && leb c b'z' then c - 32 else c

-- `s.lower()`
abbrev pub lower : Text → Text
lower s = map lower_char s

-- `s.capitalize()`
abbrev pub capitalize : Text → Text
capitalize [] = []
capitalize (c ∷ s) = upper_char c ∷ lower s

abbrev pub add_word : Text → List Text → List Text
add_word [] ws = ws
add_word (c ∷ w) ws = (c ∷ w) ∷ ws

-- `s.split()`, with the word that is being read.
unfoldable pub words_loop : Text → Text → List Text
words_loop word [] = add_word word []
words_loop word (c ∷ s) =
    let ended = add_word word (words_loop [] s) in
    let longer = words_loop (word ++ c ∷ []) s in if is_space c then ended else longer

unfoldable pub words : Text → List Text
unfolding words_loop
words s = words_loop [] s

unfoldable pub get_parser_class_info : Text → Text × Text
unfolding words join
get_parser_class_info scheduler_name =
    let name_parts = words scheduler_name in
    let class_parts : List Text = codes "option" ∷ codes "parser" ∷ [] in
    (
      concat (map capitalize (name_parts ++ class_parts)),
      codes "worker."
          ++ (join (codes "_") (map lower name_parts)
              ++ (codes "." ++ join (codes "_") class_parts)),
    )

-- The name in `get_submit_output_parser`.
unfoldable pub submit_output_module : Text → Text
unfolding words join
submit_output_module scheduler_name =
    codes "worker."
    ++ (join (codes "_") (map lower (words scheduler_name)) ++ codes ".submit_output_parser")
