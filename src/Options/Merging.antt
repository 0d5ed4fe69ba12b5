-- ===== src/Options/Merging.antt =====
-- `merge_options` of the two scheduler parsers: the options of a job that is submitted again, from
-- those of its first submission and those that are given now.
pub mod Resources
use worker_ng.Base.{◌≡◌, true, false, Option, none, some, List, [], ◌∷◌, ◌++◌, map}
use worker_ng.Text.{Text, codes}
use worker_ng.Dict.{lookup, update}
use worker_ng.Errors.{Result, ok, err, type_error, attribute_error, ◌>>=◌}
use worker_ng.Options.Argparse.{
  Names, single, Argument, option, flag, appended, ArgumentParser, Namespace, Argparse,
  joined_namespace,
}
use worker_ng.Options.CommandLine.{
  Value, none_value, false_value, true_value, list_value, text_value,
}
use worker_ng.Options.PbsTorque
use worker_ng.Options.Slurm

-- `ArgumentParser(add_help=False)` with the options and flags that are passed through.
abbrev pub pass_through_parser : List Names → List Names → ArgumentParser
pass_through_parser options flags = record {
  add_help = false;
  exit_on_error = true;
  arguments = map option options ++ map flag flags;
}

-- `_merge_resources` of the Slurm parser, on the attributes of two namespaces.
unfoldable pub merge_slurm_resources : Option Namespace → Option Namespace → Option Namespace
merge_slurm_resources none new = new
merge_slurm_resources (some old) none = some old
merge_slurm_resources (some old) (some new) = some (update old new)

abbrev pub slurm_resource_parser : ArgumentParser
slurm_resource_parser = record {
  add_help = true;
  exit_on_error = true;
  arguments = map option Slurm.resource_options ++ map flag Slurm.resource_flags;
}

abbrev pub pbs_resource_parser : ArgumentParser
pbs_resource_parser = record {
  add_help = true;
  exit_on_error = true;
  arguments = appended (single (codes "-l")) ∷ [];
}

-- `vars` of what `_merge_resources` returned.
abbrev pub attributes : Option Namespace → Result Namespace
attributes none = err type_error
attributes (some ns) = ok ns

-- The attribute `l`.
abbrev pub requests : Option Value → Result (Option (List Text))
requests (some none_value) = ok none
requests (some (list_value rs)) = ok (some rs)
requests (some v) = err type_error
requests none = err attribute_error

abbrev pub request_value : Option (List Text) → Value
request_value none = none_value
request_value (some rs) = list_value rs

module _ (a : Argparse) where
  open a use {parse_known_args}

  -- The options that are passed through: those given now are read on top of the old ones.
  unfoldable pub merge_passed : ArgumentParser → List Text → List Text → Result Namespace
  merge_passed parser new_args old_args = do
    old_options ← parse_known_args parser old_args []
    merged_options ← parse_known_args parser new_args old_options.0
    ok merged_options.0

  abbrev pub slurm_parser : ArgumentParser
  slurm_parser = pass_through_parser Slurm.pass_through_options Slurm.pass_through_flags

  abbrev pub pbs_parser : ArgumentParser
  pbs_parser =
      pass_through_parser (map single PbsTorque.pass_through_options)
        (map single PbsTorque.pass_through_flags)

  -- `SlurmOptionParser.merge_options`
  unfoldable pub merge_slurm_options : List Text → List Text → Result Namespace
  unfolding merge_passed merge_slurm_resources joined_namespace
  merge_slurm_options new_args old_args = do
    merged_options ← merge_passed slurm_parser new_args old_args
    old_resources ← parse_known_args slurm_resource_parser old_args []
    new_resources ← parse_known_args slurm_resource_parser new_args []
    resources ← attributes (merge_slurm_resources (some old_resources.0) (some new_resources.0))
    joined_namespace resources merged_options

  -- `PbsTorqueOptionParser.merge_options`
  unfoldable pub merge_pbs_options : List Text → List Text → Result Namespace
  unfolding merge_passed joined_namespace
  merge_pbs_options new_args old_args = do
    merged_options ← merge_passed pbs_parser new_args old_args
    old_resources ← parse_known_args pbs_resource_parser old_args []
    new_resources ← parse_known_args pbs_resource_parser new_args []
    old_l ← requests (lookup (codes "l") old_resources.0)
    new_l ← requests (lookup (codes "l") new_resources.0)
    resources ← PbsTorque.merge_resources old_l new_l
    joined_namespace ((codes "l", request_value resources) ∷ []) merged_options
