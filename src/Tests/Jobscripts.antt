-- ===== src/Tests/Jobscripts.antt =====
-- A job script from a template in two fields.
use worker_ng.Base.{◌≡◌, refl, pos, inl, inr, none, List, [], ◌∷◌}
use worker_ng.Text.{Text, codes, newline}
use worker_ng.Errors.{ok, err, key_error}
use worker_ng.Format.{format}
use worker_ng.Format.Templates.{Part, literal, field, template, render}
use worker_ng.Config.{Config}
use worker_ng.Workfile.{print}
use worker_ng.Jobscript.{JobOptions, templ_params, create_jobscript}
use worker_ng.Jobscript.Parameters.{create_jobscript-template}

abbrev pub config : Config
config = record {
  worker = record {
    path = codes "/opt/worker";
    worker_port = codes "0";
    workitem_separator = codes "#WORKER----";
    server_start_delay = codes "10";
    tempdir_prefix = codes "worker_";
    env_var_exprs = codes "-e PATH";
  };
  scheduler = record {
    name = codes "slurm";
    submit_command = codes "sbatch";
    jobid_var_name = codes "SLURM_JOBID";
    arrayid_var_name = codes "SLURM_ARRAY_TASK_ID";
    env_var_exprs = [];
  };
}

-- From a batch script without a shebang.
abbrev options : JobOptions
options = record {
  shebang = none;
  directives = codes "#SBATCH --nodes=1\n";
  port = none;
  num_cores = pos 2;
}

abbrev behind : List Part
behind = field (codes "scheduler_directives") ∷ literal (codes "}\n") ∷ []

create_jobscript-template_example :
    (text : Text) × (render (templ_params [] options config) behind ≡ ok text)
    × (create_jobscript [] options (template behind) config ≡ ok (print text))
create_jobscript-template_example =
    create_jobscript-template [] options config behind (inr (inl refl), (tt, tt))

-- A brace in a template has to be doubled; a field that is no parameter is refused.
formatted : format ((codes "x", codes "1") ∷ []) (codes "a{x}{{b}}") ≡ ok (codes "a1{b}")
unfolding format worker_ng.Dict.lookup worker_ng.Text.text_eq
formatted = refl

no_parameter : format [] (codes "{x}") ≡ err (key_error (codes "x"))
unfolding format worker_ng.Dict.lookup worker_ng.Text.text_eq
no_parameter = refl
