-- ===== src/Jobscript.antt =====
-- `get_worker_dir_path` and `create_jobscript` of scripts/worker/utils.py.
pub mod Parameters
use worker_ng.Base.{ℕ, zero, suc, ℤ, pos, negsuc, Option, none, some, List, [], ◌∷◌, ◌++◌}
use worker_ng.Text.{Text, codes}
use worker_ng.Text.Numbers.{str}
use worker_ng.Dict.{Dict}
use worker_ng.Errors.{Result, ok, ◌>>=◌}
use worker_ng.Format.{format}
use worker_ng.Config.{Config}
use worker_ng.Workfile.{print}
use worker_ng.Artifacts.Paths.{FilePath, path_text}

-- `str` of an integer.
abbrev pub str_ℤ : ℤ → Text
str_ℤ (pos n) = str n
str_ℤ (negsuc n) = b'-' ∷ str (suc n)

-- What the job script takes from the options.
pub record JobOptions : Type 0 where
  pub shebang : Option Text
  pub directives : Text
  pub port : Option ℤ
  pub num_cores : ℤ

-- Where the directory will be when the job runs: the shell puts in the job's number.
unfoldable pub get_worker_dir_path : FilePath → Config → FilePath
get_worker_dir_path cwd config =
    cwd ++ (codes "worker_${" ++ (config.scheduler.jobid_var_name ++ codes "}")) ∷ []

-- `port or config[...]`: zero counts as no port.
abbrev pub chosen_port : Option ℤ → Text → Text
chosen_port none default = default
chosen_port (some (pos zero)) default = default
chosen_port (some (pos (suc n))) default = str (suc n)
chosen_port (some (negsuc n)) default = str_ℤ (negsuc n)

-- `str` of the shebang.
abbrev pub shebang_text : Option Text → Text
shebang_text none = codes "None"
shebang_text (some shebang) = shebang

abbrev pub quoted : Text → Text → Text
quoted option path = option ++ (codes " \"" ++ (path ++ codes "\""))

unfoldable pub templ_params : FilePath → JobOptions → Config → Dict
unfolding get_worker_dir_path
templ_params cwd options config =
    let dir = get_worker_dir_path cwd config in
    let within : Text → Text = λ (name : Text). path_text (dir ++ name ∷ []) in
    (codes "shebang", shebang_text options.shebang)
    ∷ (codes "scheduler_directives", options.directives)
    ∷ (codes "worker_path", config.worker.path)
    ∷ (codes "server_info", within (codes "server_info.txt"))
    ∷ (codes "server_log_opt", quoted (codes "--log") (within (codes "server.log")))
    ∷ (codes "port_opt", codes "--port " ++ chosen_port options.port config.worker.worker_port)
    ∷ (codes "server_start_delay", config.worker.server_start_delay)
    ∷ (codes "workfile", within (codes "workerfile.txt"))
    ∷ (codes "client_log_prefix_opt", quoted (codes "--log_prefix") (within (codes "client_")))
    ∷ (
      codes "env_var_exprs",
      config.worker.env_var_exprs ++ (codes " " ++ config.scheduler.env_var_exprs),
    )
    ∷ (codes "num_cores", str_ℤ options.num_cores)
    ∷ (codes "exit_on_client_fail", codes "false")
    ∷ []

-- What is written to the job script, from the text of the template.
unfoldable pub create_jobscript : FilePath → JobOptions → Text → Config → Result Text
unfolding templ_params
create_jobscript cwd options template config = do
  text ← format (templ_params cwd options config) template
  ok (print text)
