-- ===== src/Tests/Resubmission.antt =====
-- Reading the options of a job that is submitted, and of a job that is submitted again.
use worker_ng.Base.{◌≡◌, refl, false, none, some, List, [], ◌∷◌, ◌++◌, inl, inr}
use worker_ng.Text.{Text, codes, newline, carriage_return, text_eq, starts_with}
use worker_ng.Dict.{lookup, insert}
use worker_ng.Errors.{Result, ok, err}
use worker_ng.Shlex
use worker_ng.Artifacts.Paths.{FilePath, path_eq}
use worker_ng.Artifacts.{file, dir, FileSystem, put}
use worker_ng.Submission.{submit_job}
use worker_ng.Options.{ParseData}
use worker_ng.Options.Slurm
use worker_ng.Options.CommandLine.{none_value, text_value}
use worker_ng.Options.Argparse.{
  both, Argument, option, with_dest, argument_dest, Namespace, joined_namespace, dest_of,
}
use worker_ng.Options.Parser.{
  SchedulerOptionParser, Pathlib, slurm_option_parser, cl_parser, submit_arguments,
  resubmit_arguments, parse_submit,
}
use worker_ng.Options.Parser.Worker.{lookup-parse_submit}
use worker_ng.Tests.Parsers.{parsers, parsers-IsArgparse, assigned}
use worker_ng.Tests.Submissions.{shell}

-- A name is a path of one component.
abbrev pub pathlib : Pathlib
pathlib = record { place = λ name. name ∷ []; shown = λ name. name }

abbrev cl_options : List Text
cl_options = codes "--nodes" ∷ codes "4" ∷ []

abbrev stored : Text
stored = (submit_job shell (codes "sbatch") cl_options (codes "job.sh") false).file

abbrev job_dir : FilePath
job_dir = codes "job" ∷ []

abbrev pub fs : FileSystem
fs = put job_dir dir (
    put (job_dir ++ codes "submit.sh" ∷ []) (file stored) (
      put (job_dir ++ codes "jobscript.sh" ∷ []) (file (codes "x\n"))
        (put (codes "job.sh" ∷ []) (file (codes "#SBATCH -a 1-5\nx\n")) (λ p. none))))

abbrev pub scheduler : SchedulerOptionParser
scheduler = slurm_option_parser parsers

abbrev pub again : List Text
again = codes "--dir" ∷ codes "job" ∷ []

-- There is no job of the other name.
abbrev pub elsewhere : List Text
elsewhere = codes "--dir" ∷ codes "work" ∷ []

abbrev pub elsewhere_options : Namespace
elsewhere_options = assigned (cl_parser scheduler resubmit_arguments).arguments elsewhere []

pub elsewhere-named : lookup (codes "dir") elsewhere_options ≡ some (text_value (codes "work"))
unfolding lookup insert assigned dest_of text_eq starts_with
elsewhere-named = refl

abbrev submit : List Text
submit = codes "--batch" ∷ codes "job.sh" ∷ []

abbrev submit_options : Namespace
submit_options = assigned (cl_parser scheduler submit_arguments).arguments submit []

abbrev nothing : ParseData Namespace
nothing = record {
  options = [];
  shebang = none;
  directives = [];
  script = none;
  scheduler_options = none;
}

abbrev data_or_nothing : Result (ParseData Namespace) → ParseData Namespace
data_or_nothing (ok d) = d
data_or_nothing (err e) = nothing

abbrev submitted : ParseData Namespace
submitted = data_or_nothing (parse_submit parsers pathlib fs scheduler submit)

submitted-ok : parse_submit parsers pathlib fs scheduler submit ≡ ok submitted
unfolding parse_submit lookup insert assigned dest_of text_eq starts_with put path_eq
    Slurm.parse_script worker_ng.Text.read_lines worker_ng.Text.is_space Slurm.parse_line
    Shlex.split Slurm.is_resource_directive_line joined_namespace
submitted-ok = refl

abbrev array_argument : Argument
array_argument = with_dest (codes "array_request") (option (both (codes "-a") (codes "--array")))

-- The job script asks for an array with a directive, the command line does not: there is none.
lookup-parse_submit_example :
    lookup (argument_dest array_argument) submitted.options
    ≡ lookup (argument_dest array_argument) submit_options
lookup-parse_submit_example =
    lookup-parse_submit parsers pathlib fs scheduler submit submit array_argument
      {cl_options = submit_options} {d = submitted} parsers-IsArgparse refl submitted-ok
      (inr (inr (inl refl)))

array_not_seen :
    (lookup (codes "array_request") submitted.options ≡ some none_value)
    × (lookup (codes "array") submitted.options ≡ some (text_value (codes "1-5")))
unfolding parse_submit lookup insert assigned dest_of text_eq starts_with put path_eq
    Slurm.parse_script worker_ng.Text.read_lines worker_ng.Text.is_space Slurm.parse_line
    Shlex.split Slurm.is_resource_directive_line joined_namespace
array_not_seen = (refl, refl)
