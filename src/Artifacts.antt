-- ===== src/Artifacts.antt =====
-- The files that the scripts create and remove, and the messages that they print: `create_tempdir`,
-- `create_cleanup_function` and `exit_on_error` of scripts/worker/utils.py.
pub mod Paths
pub mod Removal
pub mod Exits
pub mod Making
pub mod Reading
use worker_ng.Base.{ℕ, Bool, true, false, Option, none, some, List, [], ◌∷◌, ◌++◌, if◌then◌else◌}
use worker_ng.Text.{Text, codes}
use worker_ng.Dict.{Dict}
use worker_ng.Errors.{
  Result, ok, err, Exception, file_not_found, is_a_directory, not_a_directory, file_exists,
  WorkerError, ◌>>=◌,
}
use worker_ng.Format.{format}
use worker_ng.Workfile.{print}
use worker_ng.Artifacts.Paths.{FilePath, path_eq, is_under, path_text}

pub data Entry : Type 0 where
  file : Text → Entry
  dir : Entry

abbrev pub FileSystem : Type 0
FileSystem = FilePath → Option Entry

-- Why a path names nothing: an entry on the way to it is a file, or there is none.
abbrev pub through : Option Entry → Exception → Exception
through none e = e
through (some dir) e = e
through (some (file s)) e = not_a_directory

unfoldable pub missing : FileSystem → FilePath → FilePath → Exception
missing fs before [] = file_not_found
missing fs before (c ∷ rest) = through (fs before) (missing fs (before ++ c ∷ []) rest)

abbrev pub content_of : Exception → Option Entry → Result Text
content_of e none = err e
content_of e (some dir) = err is_a_directory
content_of e (some (file s)) = ok s

-- `open(p).read()`, before the line ends are translated.
unfoldable pub read_file : FileSystem → FilePath → Result Text
unfolding missing
read_file fs p = content_of (missing fs [] p) (fs p)

-- The file system, and what was printed on the two standard streams.
pub record World : Type 0 where
  pub files : FileSystem
  pub stdout : Text
  pub stderr : Text

abbrev pub say : Text → World → World
say line w = record w { stdout = w.stdout ++ print line }

abbrev pub complain : Text → World → World
complain line w = record w { stderr = w.stderr ++ print line }

unfoldable pub put : FilePath → Entry → FileSystem → FileSystem
put p e fs q = if path_eq p q then some e else fs q

-- `shutil.rmtree(p)`
unfoldable pub rmtree : FilePath → FileSystem → FileSystem
rmtree p fs q = if is_under p q then none else fs q

-- `p.unlink()`
unfoldable pub unlink : FilePath → FileSystem → FileSystem
unlink p fs q = if path_eq p q then none else fs q

-- What `p.mkdir()` and `p.write_text(s)` leave when they succeed.
abbrev pub mkdir : FilePath → World → World
mkdir p w = record w { files = put p dir w.files }

abbrev pub write_file : FilePath → Text → World → World
write_file p s w = record w { files = put p (file s) w.files }

-- Whether `mkdir` succeeds, by the entries of the parent and of the path itself; the exception is that of
-- a parent that is missing.
abbrev pub mkdir_check : Exception → Option Entry → Option Entry → Result (Unit {0})
mkdir_check e none entry = err e
mkdir_check e (some (file s)) entry = err not_a_directory
mkdir_check e (some dir) (some entry) = err file_exists
mkdir_check e (some dir) none = ok tt

-- `create_tempdir`: the name that `uuid` made is an argument.
unfoldable pub create_tempdir : FilePath → Text → Text → World → Result (FilePath × World)
unfolding put missing
create_tempdir cwd prefix uuid w = do
  let dir_path = cwd ++ (prefix ++ uuid) ∷ []
  checked ← mkdir_check (missing w.files [] cwd) (w.files cwd) (w.files dir_path)
  ok (dir_path, mkdir dir_path w)

-- The tests `is_dir` and `is_file`, and what either calls for.
abbrev pub remove_entry : FilePath → Option Entry → FileSystem → FileSystem
remove_entry p none fs = fs
remove_entry p (some dir) fs = rmtree p fs
remove_entry p (some (file s)) fs = unlink p fs

-- The body of the loop.
unfoldable pub remove_artifact : Bool → FilePath → World → World
unfolding rmtree unlink
remove_artifact is_verbose artifact w =
    let told = if is_verbose then complain (codes "removing " ++ path_text artifact) w else w in
    record told { files = remove_entry artifact (w.files artifact) w.files }

unfoldable pub remove_artifacts : Bool → List FilePath → World → World
unfolding remove_artifact
remove_artifacts is_verbose [] w = w
remove_artifacts is_verbose (artifact ∷ artifacts) w =
    remove_artifacts is_verbose artifacts (remove_artifact is_verbose artifact w)

-- `create_cleanup_function`: the function is applied to the world in which it is called.
unfoldable pub create_cleanup_function : List FilePath → Bool → Bool → World → World
unfolding remove_artifacts
create_cleanup_function artifacts is_debug is_verbose w =
    if is_debug
    then (if is_verbose then complain (codes "not cleaning up, debug mode is on") w else w)
    else remove_artifacts is_verbose artifacts w

-- How a script ends.
pub data Ending : Type 0 where
  exit : ℕ → Ending
  raised : Exception → Ending

abbrev pub Run : Type 0
Run = World × Ending

abbrev pub run_cleanup : Option (World → World) → World → World
run_cleanup none w = w
run_cleanup (some cleanup) w = cleanup w

abbrev pub exit_with : WorkerError → Option (World → World) → World → Result Text → Run
exit_with error cleanup w (ok msg) =
    (run_cleanup cleanup (complain (codes "error: " ++ msg) w), exit error.status)
exit_with error cleanup w (err e) = (w, raised e)

-- `exit_on_error`
unfoldable pub exit_on_error : WorkerError → Option (World → World) → Dict → World → Run
exit_on_error error cleanup extra w = exit_with error cleanup w (format extra error.msg)
