-- ===== src/Wsub/Leftovers.antt =====
-- Sources without a row, and data files that cannot be read.
use worker_ng.Base.{
  ◌≡◌, refl, ap, ◌∙◌, none, some, List, [], ◌∷◌, ◌++◌, map, All, All-In, inl, inr, ◌⊎◌, sym,
}
use worker_ng.Text.{Text, codes}
use worker_ng.Errors.{
  Result, ok, err, Exception, data_error, stop_iteration, file_not_found, is_a_directory,
  not_a_directory,
}
use worker_ng.DataSources.Csv
use worker_ng.DataSources.Csv.{CsvModule}
use worker_ng.DataSources.Aggregate
use worker_ng.DataSources.Aggregate.{Source}
use worker_ng.DataSources.Aggregate.Rows.{IsClean, rows_of, shortest, transposed}
use worker_ng.Config.{Config}
use worker_ng.Workfile.{Output}
use worker_ng.Workfile.Create.{create_workfile}
use worker_ng.Workfile.Sources.{written, create_workfile_from, create_workfile_from-transposed}
use worker_ng.Artifacts.Paths.{FilePath}
use worker_ng.Artifacts.{
  dir, World, complain, mkdir, create_cleanup_function, exit, raised, read_file,
}
use worker_ng.Artifacts.Exits.{introductions, Reports, exit_on_error-Reports}
use worker_ng.Artifacts.Reading.{read_file-error}
use worker_ng.Artifacts.Making.{create_tempdir-ok, mkdir-there}
use worker_ng.Options.{ParseData}
use worker_ng.Submission.{Shell}
use worker_ng.Wsub.{WorkerOptions, after_workfile, data_files, request, wsub}

data_error-Reports : Reports (data_error, codes "data source issue, ")
data_error-Reports =
    All-In Reports (data_error, codes "data source issue, ") introductions exit_on_error-Reports.0
      (inr (inr (inl refl)))

module _ (csv : CsvModule) (shell : Shell) (output_parser : Text → Result (Text → Result Text))
    (message : Exception → Text) (place : Text → FilePath) (template_path cwd : FilePath)
    (config : Config) (parser_result : ParseData WorkerOptions) (scheduler_options : List Text)
    (script uuid : Text) (w : World) (there : w.files cwd ≡ some dir)
    (free : w.files (cwd ++ (config.worker.tempdir_prefix ++ uuid) ∷ []) ≡ none) where
  abbrev pub made_dir : FilePath
  made_dir = cwd ++ (config.worker.tempdir_prefix ++ uuid) ∷ []

  -- The run, where the work file comes out in a known way.
  wsub-workfile :
      (r : Result Output)
      → create_workfile_from csv
          (data_files csv shell output_parser message place template_path cwd config parser_result
            scheduler_options script
            (mkdir made_dir w).files)
          config.worker.workitem_separator
          config.scheduler.arrayid_var_name
          (request csv shell output_parser message place template_path cwd config parser_result
            scheduler_options script)
        ≡ some r
      → wsub csv shell output_parser message place template_path cwd config parser_result
          scheduler_options script uuid w
        ≡ some (
            after_workfile csv shell output_parser message place template_path cwd config
              parser_result scheduler_options script made_dir r
              (mkdir made_dir w))
  unfolding wsub
  wsub-workfile r e =
      rw (create_tempdir-ok cwd config.worker.tempdir_prefix uuid w there free, e) refl

  -- Where the working directory is there and has no entry with the name of the new directory, and the sources open, end
  -- without an exception, and one of them has no row: the script ends with `StopIteration`, and the
  -- directory it has made is left behind, with or without debug mode.
  pub wsub-Leaves :
      (s : Source) (ss : List Source)
      → Aggregate.init csv
          (data_files csv shell output_parser message place template_path cwd config parser_result
            scheduler_options script
            (mkdir made_dir w).files)
          parser_result.options.data_names
          1024
          parser_result.options.array_request
          config.scheduler.arrayid_var_name
        ≡ ok (s ∷ ss)
      → All IsClean (s ∷ ss)
      → shortest (rows_of s) (map rows_of ss) ≡ 0
      → (w' : World) × (wsub csv shell output_parser message place template_path cwd config
            parser_result scheduler_options script uuid w
          ≡ some (w', raised stop_iteration))
        × (w'.files made_dir ≡ some dir)
  unfolding create_workfile
  wsub-Leaves s ss opened clean no_row =
      let files =
        data_files csv shell output_parser message place template_path cwd config parser_result
          scheduler_options script (mkdir made_dir w).files in
      let asked =
        request csv shell output_parser message place template_path cwd config parser_result
          scheduler_options script in
      let made =
        create_workfile_from-transposed csv files config.worker.workitem_separator
          config.scheduler.arrayid_var_name asked s ss opened clean in
      let nothing : create_workfile_from csv files config.worker.workitem_separator
            config.scheduler.arrayid_var_name asked
          ≡ some (err stop_iteration) =
        made
        ∙ ap
            (λ n. some (
              written (
                create_workfile config.worker.workitem_separator script
                  (map (Aggregate.merge []) (transposed n (map rows_of (s ∷ ss)))))))
            no_row in
      (mkdir made_dir w, wsub-workfile (err stop_iteration) nothing, mkdir-there made_dir w)

  -- Where the working directory is there and has no entry with the name of the new directory, and the first data file
  -- that is given cannot be read: if it does not exist, the script prints so, cleans up and ends with
  -- status 10; on any other exception, that of a directory or of a file on the way to it, the script
  -- ends with the exception, and the directory it has made is left behind.
  pub wsub-unreadable :
      (name : Text) (names : List Text) (e : Exception)
      → parser_result.options.data_names ≡ some (name ∷ names)
      → read_file (mkdir made_dir w).files (place name) ≡ err e
      → ((e ≡ file_not_found)
          × (wsub csv shell output_parser message place template_path cwd config parser_result
                scheduler_options script uuid w
              ≡ some (
                create_cleanup_function
                    (made_dir ∷ [])
                    parser_result.options.is_debug
                    parser_result.options.is_verbose
                    (complain
                      (codes "error: " ++ (codes "data source issue, " ++ message e))
                      (mkdir made_dir w)),
                exit 10,
              )))
        ⊎ (((e ≡ is_a_directory) ⊎ (e ≡ not_a_directory))
            × (wsub csv shell output_parser message place template_path cwd config parser_result
                  scheduler_options script uuid w
                ≡ some (mkdir made_dir w, raised e))
            × ((mkdir made_dir w).files made_dir ≡ some dir))
  unfolding create_workfile_from Aggregate.init Aggregate.open_sources Csv.init
  wsub-unreadable name names e given unread =
      elim (read_file-error (mkdir made_dir w).files (place name) e unread) [
        | inl is ↦
            let unread' = unread ∙ ap (λ (x : Exception). err x) is in
            inl (
              is,
              wsub-workfile (err file_not_found) (rw (given, unread') refl)
                  ∙ (ap some (
                        data_error-Reports
                          (some (λ v.
                            create_cleanup_function (made_dir ∷ []) parser_result.options.is_debug
                              parser_result.options.is_verbose v))
                          (message file_not_found) (mkdir made_dir w))
                      ∙ ap
                          (λ (x : Exception). some (
                            create_cleanup_function (made_dir ∷ []) parser_result.options.is_debug
                                parser_result.options.is_verbose
                                (complain
                                  (codes "error: " ++ (codes "data source issue, " ++ message x))
                                  (mkdir made_dir w)),
                            exit 10,
                          ))
                          (sym is)),
            )
        | inr (inl is) ↦
            let unread' = unread ∙ ap (λ (x : Exception). err x) is in
            inr (
              inl is,
              wsub-workfile (err is_a_directory) (rw (given, unread') refl)
                  ∙ ap (λ (x : Exception). some (mkdir made_dir w, raised x)) (sym is),
              mkdir-there made_dir w,
            )
        | inr (inr is) ↦
            let unread' = unread ∙ ap (λ (x : Exception). err x) is in
            inr (
              inr is,
              wsub-workfile (err not_a_directory) (rw (given, unread') refl)
                  ∙ ap (λ (x : Exception). some (mkdir made_dir w, raised x)) (sym is),
              mkdir-there made_dir w,
            )
      ]
