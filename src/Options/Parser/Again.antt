-- ===== src/Options/Parser/Again.antt =====
-- Submitting a job again from something that is no directory.
use worker_ng.Base.{◌≡◌, ◌≢◌, refl, Option, none, some, List, [], ◌++◌}
use worker_ng.Text.{Text, codes}
use worker_ng.Dict.{lookup}
use worker_ng.Errors.{ok, err, worker_dir}
use worker_ng.Artifacts.{Entry, file, dir, FileSystem}
use worker_ng.Options.Argparse.{Namespace, Argparse}
use worker_ng.Options.CommandLine.{text_value}
use worker_ng.Options.Parser.{
  SchedulerOptionParser, Pathlib, resubmit_arguments, cl_parser, check_directory, filter_worker_cl,
  parse_resubmit,
}

-- The message on a directory that is none.
abbrev pub complaint : Text → Option Entry → Text
complaint name none = codes "directory " ++ (name ++ codes " does not exist")
complaint name (some e) = name ++ codes " is not a directory"

check_directory-err :
    (name : Text) (o : Option Entry)
    → o ≢ some dir
    → check_directory name o ≡ err (worker_dir (complaint name o))
check_directory-err name none h = refl
check_directory-err name (some dir) h = absurd (h refl)
check_directory-err name (some (file s)) h = refl

module _ (a : Argparse) (pathlib : Pathlib) (fs : FileSystem) (s : SchedulerOptionParser)
    (args rest : List Text) (name : Text) {cl_options : Namespace}
    (parsed : a.parse_known_args (cl_parser s resubmit_arguments) args [] ≡ ok (cl_options, rest))
    (named : lookup (codes "dir") cl_options ≡ some (text_value name)) where
  -- Where the name that is given with `--dir` is that of nothing, or of a file, the job is not
  -- submitted again: the exception of a worker directory is raised, with a message that says which.
  pub parse_resubmit-directory :
      fs (pathlib.place name) ≢ some dir
      → parse_resubmit a pathlib fs s args
        ≡ err (worker_dir (complaint (pathlib.shown name) (fs (pathlib.place name))))
  unfolding parse_resubmit filter_worker_cl
  parse_resubmit-directory h =
      rw (parsed, named, check_directory-err (pathlib.shown name) (fs (pathlib.place name)) h) refl
