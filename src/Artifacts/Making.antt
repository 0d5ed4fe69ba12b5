-- ===== src/Artifacts/Making.antt =====
-- Making a directory.
use worker_ng.Base.{◌≡◌, ◌⊎◌, refl, inl, inr, none, some, Option-cases, [], ◌∷◌, ◌++◌}
use worker_ng.Text.{Text}
use worker_ng.Errors.{ok, err, Exception, not_a_directory, file_exists}
use worker_ng.Artifacts.Paths.{FilePath, path_eq_refl}
use worker_ng.Artifacts.{file, dir, World, put, mkdir, missing, create_tempdir}

pub mkdir-there : (p : FilePath) (w : World) → (mkdir p w).files p ≡ some dir
unfolding put
mkdir-there p w = rw (path_eq_refl p) refl

-- In a directory without an entry of the new name, the temporary directory is made.
pub create_tempdir-ok :
    (cwd : FilePath) (prefix uuid : Text) (w : World)
    → w.files cwd ≡ some dir
    → w.files (cwd ++ (prefix ++ uuid) ∷ []) ≡ none
    → create_tempdir cwd prefix uuid w
      ≡ ok (cwd ++ (prefix ++ uuid) ∷ [], mkdir (cwd ++ (prefix ++ uuid) ∷ []) w)
unfolding create_tempdir
create_tempdir-ok cwd prefix uuid w there free = rw (there, free) refl

-- It is made, or an exception is raised.
pub create_tempdir-cases :
    (cwd : FilePath) (prefix uuid : Text) (w : World)
    → (create_tempdir cwd prefix uuid w
        ≡ ok (cwd ++ (prefix ++ uuid) ∷ [], mkdir (cwd ++ (prefix ++ uuid) ∷ []) w))
      ⊎ ((e : Exception) × (create_tempdir cwd prefix uuid w ≡ err e))
unfolding create_tempdir
create_tempdir-cases cwd prefix uuid w = elim (Option-cases (w.files cwd)) [
  | inl e ↦ inr (missing w.files [] cwd, rw e refl)
  | inr (file s, e) ↦ inr (not_a_directory, rw e refl)
  | inr (dir, e) ↦ elim (Option-cases (w.files (cwd ++ (prefix ++ uuid) ∷ []))) [
    | inl f ↦ inl (rw (e, f) refl)
    | inr (there, f) ↦ inr (file_exists, rw (e, f) refl)
  ]
]
