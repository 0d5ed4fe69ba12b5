-- ===== src/Options.antt =====
-- The options of jobs: scripts/worker/option_parser.py, slurm/option_parser.py and
-- pbs_torque/option_parser.py. The base parser made with `argparse` is a parameter.
pub mod Argparse
pub mod Headers
pub mod PbsTorque
pub mod Slurm
pub mod CommandLine
pub mod Merging
pub mod Commands
pub mod Schedulers
pub mod Parser
pub mod Loading
pub mod Attributes
use worker_ng.Base.{ℕ, zero, suc, Bool, true, false, ◌&&◌, Option, List, [], ◌∷◌}
use worker_ng.Text.{Text, is_space}
use worker_ng.Errors.{Result}

-- `parse_known_args` of the base parser, which exits on an argument that is missing.
pub record Parsers : Type 1 where
  pub Namespace : Type 0
  pub parse_known_args : List Text → Result (Namespace × List Text)

-- The named tuple; `_parse_script` leaves `scheduler_options` at `None`, and resuming the script.
pub record ParseData (Namespace : Type 0) : Type 0 where
  pub options : Namespace
  pub shebang : Option Text
  pub directives : Text
  pub script : Option Text
  pub scheduler_options : Option (List Text)

-- `s[n:]`
abbrev pub drop : ℕ → Text → Text
drop zero s = s
drop (suc n) [] = []
drop (suc n) (c ∷ s) = drop n s

abbrev pub all_space : Text → Bool
all_space [] = true
all_space (c ∷ s) = is_space c && all_space s

-- `s.isspace()`
abbrev pub isspace : Text → Bool
isspace [] = false
isspace (c ∷ s) = all_space (c ∷ s)
