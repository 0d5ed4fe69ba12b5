-- ===== src/Tests/Artifacts.antt =====
-- Cleaning up after a submission that has failed.
use worker_ng.Base.{◌≡◌, refl, true, false, none, some, [], ◌∷◌, if◌then◌else◌}
use worker_ng.Text.{Text, codes}
use worker_ng.Errors.{err, file_exists}
use worker_ng.Artifacts.Paths.{FilePath, is_under}
use worker_ng.Artifacts.{file, dir, FileSystem, World, create_tempdir, create_cleanup_function}
use worker_ng.Artifacts.Removal.{IsTree, any_under, create_cleanup_function-files}

-- Every directory below the root holds every file, and nothing more.
abbrev full : FileSystem
full [] = some dir
full (c ∷ []) = some dir
full (c ∷ d ∷ []) = some (file d)
full (c ∷ d ∷ e ∷ q) = none

full-IsTree : IsTree full
full-IsTree [] c q h = refl
full-IsTree (b ∷ []) c q h = refl
full-IsTree (b ∷ d ∷ []) c q h = absurd (h refl)
full-IsTree (b ∷ d ∷ e ∷ p) c q h = absurd (h refl)

abbrev world : World
world = record { files = full; stdout = []; stderr = [] }

abbrev tempdir : FilePath
tempdir = codes "worker_1" ∷ []

abbrev workfile : FilePath
workfile = codes "worker_1" ∷ codes "workerfile.txt" ∷ []

create_cleanup_function-files_example :
    ((create_cleanup_function (tempdir ∷ []) false true world).files workfile
      ≡ (if any_under (tempdir ∷ []) workfile then none else full workfile))
    × ((create_cleanup_function (tempdir ∷ []) true true world).files workfile ≡ full workfile)
create_cleanup_function-files_example =
    create_cleanup_function-files (tempdir ∷ []) true world full-IsTree workfile

-- The work file goes with its directory, another directory stays.
cleaned_up :
    ((create_cleanup_function (tempdir ∷ []) false true world).files workfile ≡ none)
    × ((create_cleanup_function (tempdir ∷ []) false true world).files (codes "home" ∷ [])
        ≡ some dir)
unfolding create_cleanup_function is_under worker_ng.Text.text_eq
cleaned_up = (refl, refl)

-- The directory of another job that has the name is not taken.
tempdir_refused : create_tempdir [] (codes "worker_") (codes "1") world ≡ err file_exists
unfolding create_tempdir
tempdir_refused = refl
