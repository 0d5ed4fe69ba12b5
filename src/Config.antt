-- ===== src/Config.antt =====
-- What the scripts read of the configuration file: the sections `worker` and `scheduler`, with the path
-- that the scripts add. The parser `configparser` is left to its result.
use worker_ng.Text.{Text}

pub record WorkerConfig : Type 0 where
  pub path : Text
  pub worker_port : Text
  pub workitem_separator : Text
  pub server_start_delay : Text
  pub tempdir_prefix : Text
  pub env_var_exprs : Text

pub record SchedulerConfig : Type 0 where
  pub name : Text
  pub submit_command : Text
  pub jobid_var_name : Text
  pub arrayid_var_name : Text
  pub env_var_exprs : Text

pub record Config : Type 0 where
  pub worker : WorkerConfig
  pub scheduler : SchedulerConfig
