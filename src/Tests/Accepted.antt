-- ===== src/Tests/Accepted.antt =====
-- A run of the submitting script that the scheduler accepts.
use worker_ng.Base.{◌≡◌, ◌≢◌, refl, none, some, [], ◌∷◌, ◌++◌, Option}
use worker_ng.Text.{Text, codes, text_eq, strip, is_space}
use worker_ng.Text.Numbers.{str}
use worker_ng.Errors.{Result}
use worker_ng.DataSources.Aggregate
use worker_ng.Workfile.{Output, print}
use worker_ng.Workfile.Sources.{create_workfile_from}
use worker_ng.Jobscript.{create_jobscript}
use worker_ng.Artifacts.Paths.{FilePath, path_eq}
use worker_ng.Artifacts.{file, dir, FileSystem, World, put, mkdir, exit, read_file}
use worker_ng.Options.{ParseData}
use worker_ng.Shlex
use worker_ng.Submission.{parse_slurm}
use worker_ng.Wsub.{WorkerOptions, wsub, data_files, request, job_options}
use worker_ng.Wsub.Submitted.{IsJob, tempdir, command, wsub-Submits}
use worker_ng.Tests.Requests.{csv}
use worker_ng.Tests.Jobscripts.{config}
use worker_ng.Tests.Submissions.{shell, accepted, accepted-parsed}
use worker_ng.Tests.Runs.{output_parser, message, place, parser_result}
use worker_ng.Tests.Starts.{or_else}

-- The items are the numbers 1 and 2.
abbrev array_job : ParseData WorkerOptions
array_job = record parser_result {
  options = record parser_result.options { data_names = none; array_request = some (codes "1-2") };
}

abbrev template_path : FilePath
template_path = codes "jobscript.tmpl" ∷ []

abbrev files : FileSystem
files = put template_path (file (codes "-n {num_cores}\n")) (put [] dir (λ p. none))

abbrev world : World
world = record { files = files; stdout = []; stderr = [] }

abbrev no_output : Output
no_output = record { item_count = 0; text = [] }

abbrev some_output : Option (Result Output) → Output
some_output none = no_output
some_output (some r) = or_else no_output r

abbrev job_dir : FilePath
job_dir =
    tempdir csv shell output_parser message place template_path [] config array_job [] (codes "x\n")
      (codes "1") world

abbrev out : Output
out = some_output (
    create_workfile_from csv
      (data_files csv shell output_parser message place template_path [] config array_job []
        (codes "x\n") (mkdir job_dir world).files)
      config.worker.workitem_separator config.scheduler.arrayid_var_name
      (request csv shell output_parser message place template_path [] config array_job []
        (codes "x\n")))

abbrev jobscript : Text
jobscript = or_else [] (
    create_jobscript []
      (job_options csv shell output_parser message place template_path [] config array_job []
        (codes "x\n"))
      (codes "-n {num_cores}\n") config)

other_name : codes "worker_1" ≢ codes "worker_1234"
other_name e = cc

wsub-Submits_example :
    (w' : World) × (wsub csv shell output_parser message place template_path [] config array_job []
        (codes "x\n")
        (codes "1")
        world
      ≡ some (w', exit 0))
    × IsJob
        (codes "worker_1234" ∷ [])
        out.text
        jobscript
        (print (
          Shlex.join (
            command csv shell output_parser message place template_path [] config array_job []
              (codes "x\n")
              (codes "1")
              world)))
        w'.files
    × (w'.files (codes "worker_1" ∷ []) ≡ none)
    × (w'.stdout
        ≡ []
          ++ print (codes "total number of work items: " ++ str out.item_count)
          ++ print (codes "1234"))
unfolding create_workfile_from create_jobscript read_file put path_eq Aggregate.init
    worker_ng.Regex.run worker_ng.Text.split worker_ng.Text.Numbers.int worker_ng.Regex.get_group
    text_eq is_space Aggregate.collect worker_ng.DataSources.Range.range worker_ng.Format.format
    worker_ng.Dict.lookup
wsub-Submits_example =
    wsub-Submits csv shell output_parser message place template_path [] config array_job []
      (codes "x\n") (codes "1") world out (codes "-n {num_cores}\n") jobscript accepted b'1'
      (codes "234") parse_slurm refl refl refl refl refl refl refl refl refl accepted-parsed
      other_name
