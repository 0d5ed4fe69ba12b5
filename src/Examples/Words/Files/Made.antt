-- ===== src/Examples/Words/Files/Made.antt =====
-- The files that a run makes.
use worker_ng.Base.{
  ℕ, zero, suc, ◌+◌, ◌≤◌, ◌<◌, ◌≡◌, ◌≢◌, refl, sym, ap, ◌∙◌, ◌⊎◌, inl, inr, ℤ, pos, true, Option,
  none, some, List, [], ◌∷◌, ◌++◌, Bool-cases, arith, ◌==◌,
}
use worker_ng.Text.{Text}
use worker_ng.Errors.{ok}
use worker_ng.Options.Argparse.{Argparse}
use worker_ng.Artifacts.Paths.{FilePath, path_eq, path_eq_refl}
use worker_ng.Artifacts.{Entry, file, dir, FileSystem, World, put, write_file, exit}
use worker_ng.Wsub.Changes.{path_eq_longer}
use worker_ng.Examples.Random.{Random}
use worker_ng.Examples.Words.{max_word_length}
use worker_ng.Examples.Words.Ends.{Written, create_file-Written, create_file-some}
use worker_ng.Examples.Words.Files.{
  data_file_name, nat_of, opened, files_loop, DataOptions, read_options, main,
}

module _ (r : Random) (max_words columns : ℕ) where
  -- A file of lines that fit, with as many words as some number from 1 to the maximum.
  pub record Filled (entry : Option Entry) : Type 0 where
    text : Text
    nr_words : ℕ
    there : entry ≡ some (file text)
    some_words : 0 < nr_words
    bounded : nr_words ≤ max_words
    written : Written r columns nr_words [] text

  -- Where nothing is in the way.
  opened-ok : (o : Option Entry) → o ≢ some dir → opened (some dir) o ≡ ok tt
  opened-ok none h = refl
  opened-ok (some dir) h = absurd (h refl)
  opened-ok (some (file s)) h = refl

  module _ (t : FilePath) where
    abbrev name : ℕ → FilePath
    name i = t ++ data_file_name i ∷ []

    -- A new file of the loop leaves what there is of the others, and is filled itself.
    Filled-put :
        (i j : ℕ) (text : Text) (nr_words : ℕ) (fs : FileSystem)
        → 0 < nr_words
        → nr_words ≤ max_words
        → Written r columns nr_words [] text
        → (Filled (fs (name j))) ⊎ (i ≡ j)
        → Filled (put (name i) (file text) fs (name j))
    unfolding put
    Filled-put i j text nr_words fs one le h c = elim (Bool-cases (path_eq (name i) (name j))) [
      | inl e ↦ rw e (record {
        text = text;
        nr_words = nr_words;
        there = refl;
        some_words = one;
        bounded = le;
        written = h;
      })
      | inr e ↦ rw e (elim c [
        | inl f ↦ f
        | inr same ↦
            let equal : path_eq (name i) (name j) ≡ true =
              ap (λ (k : ℕ). path_eq (name i) (name k)) (sym same) ∙ path_eq_refl (name i) in
            cc
      ])
    ]

    put-no_dir :
        (i j : ℕ) (text : Text) (fs : FileSystem)
        → fs (name j) ≢ some dir
        → put (name i) (file text) fs (name j) ≢ some dir
    unfolding put
    put-no_dir i j text fs h = elim (Bool-cases (path_eq (name i) (name j))) [
      | inl e ↦ rw e (λ f. cc)
      | inr e ↦ rw e h
    ]

    put-dir :
        (i : ℕ) (text : Text) (fs : FileSystem)
        → fs t ≡ some dir
        → put (name i) (file text) fs t ≡ some dir
    unfolding put
    put-dir i text fs h = rw (path_eq_longer t (data_file_name i)) h

    pub files_loop-Filled :
        (fuel left i : ℕ) (s : r.State) (w : World)
        → suc max_word_length ≤ columns
        → 0 < max_words
        → max_words < fuel
        → w.files t ≡ some dir
        → ((j : ℕ) → w.files (name j) ≢ some dir)
        → (w' : World) × (files_loop r fuel t (pos max_words) (pos columns) left i s w
            ≡ some (w', exit 0))
          × ((j : ℕ)
              → j < i + left
              → (i ≤ j) ⊎ Filled (w.files (name j))
              → Filled (w'.files (name j)))
    unfolding files_loop
    files_loop-Filled fuel zero i s w wide some_words enough there free =
        (w, refl, λ j lt. elim [ inl le ↦ absurd (omega arith) | inr f ↦ f ])
    files_loop-Filled fuel (suc left) i s w wide some_words enough there free =
        let (text, s', made) = create_file-some r fuel max_words columns s wide some_words enough in
        let (nr_words, one, le, written) =
          create_file-Written r fuel max_words columns s text s' (omega arith) made in
        let w1 = write_file (name i) text w in
        let (w', rest, filled) =
          files_loop-Filled fuel left (suc i) s' w1 wide some_words enough
            (put-dir i text w.files there) (λ j. put-no_dir i j text w.files (free j)) in
        (
          w',
          rw (there, opened-ok (w.files (name i)) (free i), made) rest,
          λ j lt c. filled j (omega arith) (elim c [
            | inr f ↦ inr (Filled-put i j text nr_words w.files one le written (inl f))
            | inl from ↦ elim (Bool-cases (i == j)) [
              | inl e ↦
                  inr (Filled-put i j text nr_words w.files one le written (inr (ground arith)))
              | inr e ↦ inl (ground arith)
            ]
          ]),
        )

-- Where the options can be read, lines may have at least 11 columns and files a positive number of words,
-- and the directory is there, without directories at the names of the files: the script ends with status
-- zero, and under each number from 1 to the number of files there is a file of lines that fit, with at
-- least as many words as a number between 1 and the maximum. One round more than the maximum of words is enough.
pub main-Filled :
    (r : Random) (fuel m n : ℕ) (a : Argparse) (int_value : Text → ℤ) (place : Text → FilePath)
    (args : List Text) (w : World) (options : DataOptions)
    → read_options a int_value args ≡ ok options
    → options.max_words ≡ pos m
    → options.max_columns ≡ pos n
    → suc max_word_length ≤ n
    → 0 < m
    → m < fuel
    → w.files (place options.output_dir) ≡ some dir
    → ((j : ℕ) → w.files (place options.output_dir ++ data_file_name j ∷ []) ≢ some dir)
    → (w' : World) × (main r fuel a int_value place args w ≡ some (w', exit 0))
      × ((j : ℕ)
          → 1 ≤ j
          → j ≤ nat_of options.nr_files
          → Filled r m n (w'.files (place options.output_dir ++ data_file_name j ∷ [])))
unfolding main
main-Filled r fuel m n a int_value place args w options read words columns wide some_words enough
      there free =
    let (w', run, filled) =
      files_loop-Filled r m n (place options.output_dir) fuel (nat_of options.nr_files) 1
        (r.seed options.random_seed) w wide some_words enough there free in
    (w', rw (read, there, words, columns) run, λ j le lt. filled j (omega arith) (inl le))
