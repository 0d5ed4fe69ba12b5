-- ===== src/Wsub/Changes.antt =====
-- What has changed in the files of a run: only what lies at or below a directory, or nothing.
use worker_ng.Base.{
  ℕ, suc, ◌≡◌, refl, sym, ap, ◌∙◌, true, false, Option, none, some, [], ◌∷◌, ◌++◌, Bool-cases, inl,
  inr,
}
use worker_ng.Text.{Text, codes}
use worker_ng.Text.Equality.{text_eq_refl}
use worker_ng.Errors.{Result, ok, err, Exception}
use worker_ng.Workfile.{Output}
use worker_ng.Artifacts.Paths.{
  FilePath, path_eq, is_under, eq_of_path_eq, is_under_refl, is_under_append,
}
use worker_ng.Artifacts.{file, dir, FileSystem, World, put, exit, raised, Run}
use worker_ng.Submission.{Shell}
use worker_ng.Wsub.{announced, finished, rename}

-- A file below a directory is not the directory.
pub path_eq_longer : (t : FilePath) (c : Text) → path_eq (t ++ c ∷ []) t ≡ false
unfolding path_eq
path_eq_longer [] c = refl
path_eq_longer (d ∷ t) c = rw (text_eq_refl d) (path_eq_longer t c)

-- Nothing but what lies at or below a directory has changed, and the directory is there.
pub record Within (t : FilePath) (before fs : FileSystem) : Type 0 where
  pub there : fs t ≡ some dir
  pub outside : (q : FilePath) → is_under t q ≡ false → fs q ≡ before q

pub Within-put :
    (t : FilePath) (c s : Text) (before fs : FileSystem)
    → Within t before fs
    → Within t before (put (t ++ c ∷ []) (file s) fs)
unfolding put
Within-put t c s before fs h = record {
  there = rw (path_eq_longer t c) h.there;
  outside = λ q out. elim (Bool-cases (path_eq (t ++ c ∷ []) q)) [
    | inl e ↦
        let under : is_under t q ≡ true =
          ap (is_under t) (sym (eq_of_path_eq (t ++ c ∷ []) q e))
          ∙ is_under_append t t (c ∷ []) (is_under_refl t) in
        cc
    | inr e ↦ rw e (h.outside q out)
  ];
}

-- The files are those of before, where the run ends with a status that is not zero.
unfoldable pub IsRestored : FileSystem → Run → Type 0
IsRestored before (w', ending) =
    (n : ℕ) → ending ≡ exit (suc n) → (q : FilePath) → w'.files q ≡ before q

pub raised-IsRestored :
    (before : FileSystem) (w : World) (e : Exception) → IsRestored before (w, raised e)
unfolding IsRestored
raised-IsRestored before w e n h = cc

announced-IsRestored :
    (before : FileSystem) (out : Output) (job_id : Text) (w : World) (r : Result World)
    → IsRestored before (announced out job_id w r)
unfolding IsRestored
announced-IsRestored before out job_id w (err e) n h = cc
announced-IsRestored before out job_id w (ok w') n h = cc

pub finished-IsRestored :
    (before : FileSystem) (shell : Shell) (cwd t : FilePath) (out : Output) (o : Option Text)
    (w : World)
    → IsRestored before (finished shell cwd t out o w)
unfolding IsRestored
finished-IsRestored before shell cwd t out none w = λ n h. cc
finished-IsRestored before shell cwd t out (some []) w = λ n h. cc
finished-IsRestored before shell cwd t out (some (c ∷ job_id)) w =
    announced-IsRestored before out (c ∷ job_id) w
      (rename shell t (cwd ++ (codes "worker_" ++ c ∷ job_id) ∷ []) w)
