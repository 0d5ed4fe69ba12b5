-- ===== src/Tests/Runs.antt =====
-- Runs of the submitting script that fail.
use worker_ng.Base.{◌≡◌, refl, false, pos, Option, none, some, [], ◌∷◌, ◌++◌, ◌⊎◌}
use worker_ng.Text.{Text, codes, text_eq, split}
use worker_ng.Errors.{
  Result, ok, Exception, stop_iteration, file_not_found, is_a_directory, not_a_directory,
}
use worker_ng.DataSources.Aggregate
use worker_ng.DataSources.Aggregate.{Source, csv_source}
use worker_ng.Artifacts.Paths.{FilePath, path_eq}
use worker_ng.Artifacts.{
  Entry, file, dir, FileSystem, World, Run, put, exit, raised, read_file, mkdir, complain,
  create_cleanup_function,
}
use worker_ng.Options.{ParseData}
use worker_ng.Submission.{parse_slurm}
use worker_ng.Wsub.{WorkerOptions, data_files, wsub}
use worker_ng.Wsub.Leftovers.{wsub-Leaves, wsub-unreadable}
use worker_ng.Tests.Requests.{csv}
use worker_ng.Tests.Jobscripts.{config}
use worker_ng.Tests.Submissions.{shell}

abbrev data_path : FilePath
data_path = codes "data.csv" ∷ []

-- One data file, with names of columns and no row.
abbrev files : FileSystem
files = put data_path (file (codes "x")) (put [] dir (λ p. none))

-- No file at all.
abbrev no_files : FileSystem
no_files [] = some dir
no_files (c ∷ p) = none

abbrev world_of : FileSystem → World
world_of fs = record { files = fs; stdout = []; stderr = [] }

abbrev pub parser_result : ParseData WorkerOptions
parser_result = record {
  options = record {
    data_names = some (codes "data.csv" ∷ []);
    array_request = none;
    num_cores = pos 1;
    port = none;
    is_verbose = false;
    is_dryrun = false;
    is_debug = false;
  };
  shebang = none;
  directives = [];
  script = none;
  scheduler_options = none;
}

abbrev pub output_parser : Text → Result (Text → Result Text)
output_parser name = ok parse_slurm

abbrev pub message : Exception → Text
message e = codes "data.csv"

abbrev pub place : Text → FilePath
place name = name ∷ []

abbrev run : FileSystem → Option Run
run fs =
    wsub csv shell output_parser message place (codes "jobscript.tmpl" ∷ []) [] config parser_result
      [] (codes "x\n") (codes "1") (world_of fs)

abbrev world_after : Option Run → World
world_after none = world_of no_files
world_after (some (w, ending)) = w

run-failed : run no_files ≡ some (world_after (run no_files), exit 10)
unfolding wsub text_eq Aggregate.init worker_ng.Format.format worker_ng.Dict.lookup put path_eq
    worker_ng.Artifacts.create_tempdir
run-failed = refl

-- The source of the one data file.
abbrev table : Source
table = csv_source (record { fieldnames = codes "x" ∷ []; reader = [] })

opened :
    Aggregate.init csv
      (data_files csv shell output_parser message place
        (codes "jobscript.tmpl" ∷ [])
        []
        config
        parser_result
        []
        (codes "x\n")
        (mkdir (codes "worker_1" ∷ []) (world_of files)).files)
      (some (codes "data.csv" ∷ []))
      1024
      none
      config.scheduler.arrayid_var_name
    ≡ ok (table ∷ [])
unfolding Aggregate.init text_eq split read_file put path_eq
opened = refl

wsub-Leaves_example :
    (w' : World) × (run files ≡ some (w', raised stop_iteration))
    × (w'.files (codes "worker_1" ∷ []) ≡ some dir)
unfolding put path_eq text_eq
wsub-Leaves_example =
    wsub-Leaves csv shell output_parser message place (codes "jobscript.tmpl" ∷ []) [] config
      parser_result [] (codes "x\n") (codes "1") (world_of files) refl refl table [] opened (tt, tt)
      refl

abbrev made_dir : FilePath
made_dir = codes "worker_1" ∷ []

wsub-unreadable_example :
    ((file_not_found ≡ file_not_found)
      × (run no_files
          ≡ some (
            create_cleanup_function (made_dir ∷ []) false false (
                complain
                  (codes "error: " ++ (codes "data source issue, " ++ codes "data.csv"))
                  (mkdir made_dir (world_of no_files))),
            exit 10,
          )))
    ⊎ (((file_not_found ≡ is_a_directory) ⊎ (file_not_found ≡ not_a_directory))
        × (run no_files ≡ some (mkdir made_dir (world_of no_files), raised file_not_found))
        × ((mkdir made_dir (world_of no_files)).files made_dir ≡ some dir))
unfolding put path_eq text_eq read_file
wsub-unreadable_example =
    wsub-unreadable csv shell output_parser message place (codes "jobscript.tmpl" ∷ []) [] config
      parser_result [] (codes "x\n") (codes "1") (world_of no_files) refl refl (codes "data.csv") []
      file_not_found refl refl
