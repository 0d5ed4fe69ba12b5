-- ===== src/Artifacts/Removal.antt =====
-- What cleaning up leaves.
use mathlib.Core.Path.{subst, fun_ext}
use worker_ng.Base.{
  ◌≡◌, ◌≢◌, refl, sym, ap, ◌∙◌, Bool, true, false, ◌||◌, Option, none, some, List, [], ◌∷◌, ◌++◌,
  if◌then◌else◌, Bool-cases, Option-cases, inl, inr, arith, append-nil,
}
use worker_ng.Text.{Text}
use worker_ng.Artifacts.Paths.{
  FilePath, path_eq, is_under, path_eq_refl, eq_of_path_eq, is_under_append, is_under-split,
  is_under_refl,
}
use worker_ng.Artifacts.{
  Entry, file, dir, FileSystem, World, rmtree, unlink, remove_entry, remove_artifact,
  remove_artifacts, create_cleanup_function,
}

-- What has an entry below it is a directory.
abbrev pub IsTree : FileSystem → Type 0
IsTree fs = (p : FilePath) (c : Text) (q : FilePath) → fs (p ++ c ∷ q) ≢ none → fs p ≡ some dir

-- Whether a path is one of the artifacts or lies below one.
abbrev pub any_under : List FilePath → FilePath → Bool
any_under [] q = false
any_under (a ∷ as') q = is_under a q || any_under as' q

removed : FilePath → FileSystem → FileSystem
removed a fs q = if is_under a q then none else fs q

removed-IsTree : (a : FilePath) (fs : FileSystem) → IsTree fs → IsTree (removed a fs)
unfolding removed
removed-IsTree a fs tree p c q h = elim (Bool-cases (is_under a p)) [
  | inl e ↦ absurd (h (rw (is_under_append a p (c ∷ q) e) refl))
  | inr e ↦ rw e (tree p c q (λ z. h (ground arith)))
]

-- What is no directory has nothing below it.
nothing_under :
    (a q : FilePath) (fs : FileSystem)
    → IsTree fs
    → fs a ≢ some dir
    → is_under a q ≡ true
    → path_eq a q ≡ false
    → fs q ≡ none
nothing_under a q fs tree leaf under other = let (rest, e) = is_under-split a q under in go rest e
  where
    go : (rest : FilePath) → q ≡ a ++ rest → fs q ≡ none
    go [] e = let same : path_eq a q ≡ true = rw (e, append-nil a) (path_eq_refl a) in cc
    go (c ∷ rest) e = elim (Option-cases (fs q)) [
      | inl n ↦ n
      | inr (x, f) ↦
          let there : fs (a ++ c ∷ rest) ≡ some x = ap fs (sym e) ∙ f in
          absurd (leaf (tree a c rest (λ z. cc)))
    ]

removed-leaf :
    (a q : FilePath) (fs : FileSystem)
    → IsTree fs
    → fs a ≢ some dir
    → removed a fs q ≡ (if path_eq a q then none else fs q)
unfolding removed
removed-leaf a q fs tree leaf = elim (Bool-cases (path_eq a q)) [
  | inl e ↦
      let under : is_under a q ≡ true =
        subst (λ (x : FilePath). is_under a x ≡ true) (eq_of_path_eq a q e) (is_under_refl a) in
      rw (e, under) refl
  | inr e ↦ elim (Bool-cases (is_under a q)) [
    | inl u ↦ rw (e, u) (sym (nothing_under a q fs tree leaf u e))
    | inr u ↦ rw (e, u) refl
  ]
]

-- What is removed for an artifact is all that lies at or below it.
remove_entry-removed :
    (a q : FilePath) (fs : FileSystem) (o : Option Entry)
    → IsTree fs
    → fs a ≡ o
    → remove_entry a o fs q ≡ removed a fs q
unfolding removed rmtree unlink
remove_entry-removed a q fs none tree e = removed-absent
  where
    removed-absent : fs q ≡ removed a fs q
    removed-absent = rw (removed-leaf a q fs tree (λ z. cc)) (elim (Bool-cases (path_eq a q)) [
      | inl f ↦ rw f (ap fs (sym (eq_of_path_eq a q f)) ∙ e)
      | inr f ↦ rw f refl
    ])
remove_entry-removed a q fs (some dir) tree e = refl
remove_entry-removed a q fs (some (file s)) tree e = sym (removed-leaf a q fs tree (λ z. cc))

remove_artifact-files :
    (is_verbose : Bool) (a : FilePath) (w : World)
    → IsTree w.files
    → (remove_artifact is_verbose a w).files ≡ removed a w.files
unfolding remove_artifact
remove_artifact-files is_verbose a w tree =
    fun_ext (λ p. remove_entry-removed a p w.files (w.files a) tree refl)

either_under :
    (a : FilePath) (as' : List FilePath) (q : FilePath) (fs : FileSystem)
    → (if any_under as' q then none else removed a fs q)
      ≡ (if is_under a q || any_under as' q then none else fs q)
unfolding removed
either_under a as' q fs = ground arith

remove_artifacts-files :
    (is_verbose : Bool) (artifacts : List FilePath) (w : World)
    → IsTree w.files
    → (q : FilePath)
    → (remove_artifacts is_verbose artifacts w).files q
      ≡ (if any_under artifacts q then none else w.files q)
unfolding remove_artifacts
remove_artifacts-files is_verbose [] w tree q = refl
remove_artifacts-files is_verbose (a ∷ as') w tree q =
    let next = remove_artifact is_verbose a w in
    let same = remove_artifact-files is_verbose a w tree in
    let tree' = subst IsTree (sym same) (removed-IsTree a w.files tree) in
    let ih = remove_artifacts-files is_verbose as' next tree' q in
    let here : next.files q ≡ removed a w.files q = ap (λ (fs : FileSystem). fs q) same in
    ih ∙ rw here (either_under a as' q w.files)

-- Cleaning up removes every artifact with all that lies below it, and nothing else; in debug mode it
-- removes nothing.
pub create_cleanup_function-files :
    (artifacts : List FilePath) (is_verbose : Bool) (w : World)
    → IsTree w.files
    → (q : FilePath)
    → ((create_cleanup_function artifacts false is_verbose w).files q
        ≡ (if any_under artifacts q then none else w.files q))
      × ((create_cleanup_function artifacts true is_verbose w).files q ≡ w.files q)
unfolding create_cleanup_function
create_cleanup_function-files artifacts is_verbose w tree q =
    (remove_artifacts-files is_verbose artifacts w tree q, ground arith)
