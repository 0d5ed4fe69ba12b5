-- ===== src/Tests/Commands.antt =====
-- Submitting a job again: the command that was stored, and the merging of its options.
use worker_ng.Base.{
  ◌≡◌, refl, false, some, List, [], ◌∷◌, ◌++◌, inl, inr, ◌==◌, In, map, In-append_left, In-map,
}
use worker_ng.Text.{Text, codes, newline, carriage_return, text_eq}
use worker_ng.Dict.{lookup, insert, update}
use worker_ng.Errors.{ok, err, value_error}
use worker_ng.Shlex
use worker_ng.Submission.{submit_job}
use worker_ng.Options.CommandLine.{none_value, text_value}
use worker_ng.Options.Argparse.{
  both, Argument, option, flag, dest_of, argument_dest, Namespace, joined_namespace,
}
use worker_ng.Options.Slurm.{resource_options, resource_flags}
use worker_ng.Options.Merging.{merge_slurm_options, slurm_resource_parser}
use worker_ng.Options.Merging.Resources.{lookup-merge_slurm_options}
use worker_ng.Options.Commands.{parse_submit_cmd}
use worker_ng.Options.Commands.Stored.{parse_submit_cmd-submit_job}
use worker_ng.Options.Schedulers.{get_parser_class_info}
use worker_ng.Tests.Parsers.{parsers, parsers-IsArgparse, assigned, or_empty}
use worker_ng.Tests.Checks.{All-none_of}
use worker_ng.Tests.Submissions.{shell}

abbrev old_args : List Text
old_args = codes "--nodes" ∷ codes "4" ∷ codes "--account" ∷ codes "lp" ∷ []

abbrev merged : Namespace
merged = or_empty (merge_slurm_options parsers [] old_args)

abbrev new_resources : Namespace
new_resources = assigned slurm_resource_parser.arguments [] []

abbrev nodes : Argument
nodes = option (both (codes "-N") (codes "--nodes"))

merged-ok : merge_slurm_options parsers [] old_args ≡ ok merged
unfolding merge_slurm_options insert lookup update joined_namespace assigned dest_of text_eq
    worker_ng.Text.starts_with
merged-ok = refl

nodes-In : In nodes slurm_resource_parser.arguments
nodes-In = In-append_left nodes (map option resource_options) (map flag resource_flags) (
    In-map option (both (codes "-N") (codes "--nodes")) resource_options
      (inr (inr (inr (inr (inr (inr (inr (inr (inr (inr (inr (inl refl)))))))))))))

lookup-merge_slurm_options_example :
    lookup (argument_dest nodes) merged ≡ lookup (argument_dest nodes) new_resources
lookup-merge_slurm_options_example =
    lookup-merge_slurm_options parsers [] old_args [] nodes {ns = merged} {new_ns = new_resources}
      parsers-IsArgparse merged-ok refl nodes-In

-- The four nodes of the first submission are lost, its account is kept.
nodes_lost :
    (lookup (codes "nodes") merged ≡ some none_value)
    × (lookup (codes "account") merged ≡ some (text_value (codes "lp")))
unfolding merge_slurm_options insert lookup update joined_namespace assigned dest_of text_eq
    worker_ng.Text.starts_with
nodes_lost = (refl, refl)

abbrev cl_options : List Text
cl_options = codes "--comment" ∷ codes "it's late" ∷ []

abbrev stored : Text
stored = (submit_job shell (codes "sbatch") cl_options (codes "job.sh") false).file

parse_submit_cmd-submit_job_example :
    parse_submit_cmd (submit_job shell (codes "sbatch") cl_options (codes "job.sh") false).file
    ≡ ok (cl_options ++ codes "job.sh" ∷ [])
unfolding submit_job Shlex.join Shlex.quote
parse_submit_cmd-submit_job_example =
    parse_submit_cmd-submit_job shell b's' (codes "batch") cl_options (codes "job.sh") false refl
      (All-none_of (λ d. d == newline)
        (Shlex.join (codes "sbatch" ∷ (cl_options ++ codes "job.sh" ∷ []))) refl)
      (All-none_of (λ d. d == carriage_return) stored refl)

-- A command without arguments cannot be read back.
no_arguments :
    parse_submit_cmd (codes "sbatch\n")
    ≡ err (value_error (codes "not enough values to unpack (expected 2, got 1)"))
unfolding parse_submit_cmd worker_ng.Text.is_space worker_ng.Text.read_lines
no_arguments = refl

pbs_class :
    get_parser_class_info (codes "PBS Torque")
    ≡ (codes "PbsTorqueOptionParser", codes "worker.pbs_torque.option_parser")
unfolding get_parser_class_info worker_ng.Text.is_space
pbs_class = refl
