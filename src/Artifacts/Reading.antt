-- ===== src/Artifacts/Reading.antt =====
-- The exceptions of reading a file.
use worker_ng.Base.{◌≡◌, ◌⊎◌, refl, inl, inr, [], ◌∷◌, ◌++◌, Option-cases}
use worker_ng.Errors.{err, Exception, file_not_found, is_a_directory, not_a_directory}
use worker_ng.Artifacts.Paths.{FilePath}
use worker_ng.Artifacts.{file, dir, FileSystem, missing, read_file}

missing-cases :
    (fs : FileSystem) (before p : FilePath)
    → (missing fs before p ≡ file_not_found) ⊎ (missing fs before p ≡ not_a_directory)
unfolding missing
missing-cases fs before [] = inl refl
missing-cases fs before (c ∷ rest) = elim (Option-cases (fs before)) [
  | inl e ↦ rw e (missing-cases fs (before ++ c ∷ []) rest)
  | inr (dir, e) ↦ rw e (missing-cases fs (before ++ c ∷ []) rest)
  | inr (file s, e) ↦ rw e (inr refl)
]

-- A file that cannot be read is missing, or a directory, or there is a file on the way to it.
pub read_file-error :
    (fs : FileSystem) (p : FilePath) (e : Exception)
    → read_file fs p ≡ err e
    → (e ≡ file_not_found) ⊎ (e ≡ is_a_directory) ⊎ (e ≡ not_a_directory)
unfolding read_file
read_file-error fs p e = elim (Option-cases (fs p)) [
  | inl n ↦ rw n (λ h. elim (missing-cases fs [] p) [ inl m ↦ inl cc | inr m ↦ inr (inr cc) ])
  | inr (dir, d) ↦ rw d (λ h. inr (inl cc))
  | inr (file s, d) ↦ rw d (λ h. absurd cc)
]
