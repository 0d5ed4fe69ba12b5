-- ===== src/Tests/Restarts.antt =====
-- Runs of the resuming script that submit nothing.
use worker_ng.Base.{◌≡◌, ◌≢◌, refl, sym, ◌∙◌, none, some, [], false, pos, ◌∷◌, ◌++◌, inl}
use worker_ng.Text.{Text, codes, text_eq, read_lines, is_space, starts_with}
use worker_ng.Dict.{lookup, insert, update}
use worker_ng.Errors.{ok, file_not_found}
use worker_ng.Artifacts.Paths.{path_eq}
use worker_ng.Artifacts.{file, dir, FileSystem, World, complain, put, exit, raised, Ending}
use worker_ng.Options.{ParseData}
use worker_ng.Options.Slurm
use worker_ng.Options.Argparse.{Namespace, dest_of}
use worker_ng.Options.Parser.{parse_resubmit}
use worker_ng.Options.Loading.{
  slurm, get_scheduler_option_parser, load_class, get_scheduler_options_preprocessor,
  load_preprocessor,
}
use worker_ng.Options.Schedulers.{words, get_parser_class_info}
use worker_ng.Wsub.Script.{read_config_file, config_path}
use worker_ng.Resume.Job.{ResumeOptions}
use worker_ng.Resume.Script.{main, resume_options}
use worker_ng.Resume.Script.Failures.{main-directory, main-Leaves}
use worker_ng.Tests.Parsers.{parsers, assigned}
use worker_ng.Tests.Jobscripts.{config}
use worker_ng.Tests.Submissions.{shell}
use worker_ng.Tests.Frames.{frames}
use worker_ng.Tests.Resubmission.{
  pathlib, fs, scheduler, again, elsewhere, elsewhere_options, elsewhere-named,
}
use worker_ng.Tests.Starts.{configparser, message, int_value, or_else, empty, slurm-words}

abbrev repr : Text → Text
repr s = codes "'" ++ (s ++ codes "'")

abbrev files : FileSystem
files = put (codes "conf" ∷ codes "worker.conf" ∷ []) (file []) (put [] dir fs)

abbrev world : World
world = record { files = files; stdout = []; stderr = [] }

nothing_there : files (codes "work" ∷ []) ≢ some dir
unfolding put path_eq text_eq
nothing_there e = cc

configured : read_config_file configparser files (config_path []) ≡ ok config
unfolding read_config_file
configured = refl

main-directory_example :
    main frames shell parsers pathlib configparser message int_value repr [] []
      (codes "1")
      elsewhere
      world
    ≡ (
      complain (codes "error: " ++ (codes "worker directory issue, " ++ codes "no data")) world,
      exit 14,
    )
main-directory_example =
    main-directory frames shell parsers pathlib configparser message int_value repr [] []
      (codes "1") elsewhere world config slurm configured slurm-words (codes "work") elsewhere
      {cl_options = elsewhere_options} refl elsewhere-named nothing_there

abbrev parsed : ParseData Namespace
parsed = or_else empty (parse_resubmit parsers pathlib files scheduler again)

parsed-ok : parse_resubmit parsers pathlib files scheduler again ≡ ok parsed
unfolding parse_resubmit put path_eq lookup insert assigned dest_of text_eq starts_with
    Slurm.parse_script read_lines is_space Slurm.parse_line worker_ng.Submission.submit_job
    worker_ng.Shlex.join worker_ng.Shlex.split worker_ng.Options.Merging.merge_slurm_options update
parsed-ok = refl

abbrev no_options : ResumeOptions
no_options = record {
  directory = [];
  redo = false;
  num_cores = pos 1;
  port = none;
  is_verbose = false;
  is_dryrun = false;
}

abbrev options : ResumeOptions
options = or_else no_options (resume_options int_value parsed.options)

options-ok : resume_options int_value parsed.options ≡ ok options
unfolding resume_options parse_resubmit put path_eq lookup insert assigned dest_of text_eq
    starts_with Slurm.parse_script read_lines is_space Slurm.parse_line
    worker_ng.Submission.submit_job worker_ng.Shlex.join worker_ng.Shlex.split
    worker_ng.Options.Merging.merge_slurm_options update
options-ok = refl

-- The log of the previous job is missing.
log_missing :
    (main frames shell parsers pathlib configparser message int_value repr [] []
      (codes "1")
      again
      world).1
    ≡ raised file_not_found
unfolding main parse_resubmit put path_eq lookup insert assigned dest_of text_eq starts_with
    Slurm.parse_script read_lines is_space Slurm.parse_line worker_ng.Submission.submit_job
    worker_ng.Shlex.join worker_ng.Shlex.split worker_ng.Options.Merging.merge_slurm_options update
    get_scheduler_option_parser words load_class get_parser_class_info
    get_scheduler_options_preprocessor load_preprocessor worker_ng.Artifacts.create_tempdir
log_missing = refl

root-there : files [] ≡ some dir
unfolding put path_eq text_eq
root-there = refl

name-free : files (codes "worker_1" ∷ []) ≡ none
unfolding put path_eq text_eq
name-free = refl

abbrev ending : Ending
ending = raised file_not_found

not_submitted : ending ≢ exit 0
not_submitted e = cc

main-Leaves_example :
    (main frames shell parsers pathlib configparser message int_value repr [] []
        (codes "1")
        again
        world).0.files
      (codes "worker_1" ∷ [])
    ≡ some dir
main-Leaves_example =
    main-Leaves frames shell parsers pathlib configparser message int_value repr [] [] (codes "1")
      again world config slurm configured slurm-words parsed options parsed-ok options-ok root-there
      name-free (inl (λ e. not_submitted (sym log_missing ∙ e)))
