-- ===== src/Tests/Options.antt =====
-- Job scripts and options of concrete jobs.
use worker_ng.Base.{◌≡◌, refl, false, inl, inr, none, some, List, [], ◌∷◌, ◌++◌, map, concat}
use worker_ng.Text.{Text, codes, split, strip, starts_with, text_eq, read_lines}
use worker_ng.Dict.{Dict, lookup, insert, update}
use worker_ng.Dict.Laws.{or_else}
use worker_ng.Errors.{ok, ◌>>=◌}
use worker_ng.Options.{Parsers}
use worker_ng.Options.Headers.{body, shebang_of, after_shebang, directive_lines, directive_args}
use worker_ng.Options.PbsTorque
use worker_ng.Options.PbsTorque.Reading.{parse_script_lem}
use worker_ng.Options.PbsTorque.Resources.{lookup-merge_resources}
use worker_ng.Options.Slurm
use worker_ng.Options.Slurm.Reading.{
  parse_script-grouped, with_args, all_args, plain_directives, resource_directives,
}
use worker_ng.Options.Slurm.Flags.{is_resource_directive_line-IsLongFlag}
use worker_ng.Options.CommandLine.{Value, text_value, true_value, none_value}

-- Parsers that split at blanks and keep every argument.
abbrev words : Parsers
words = record { Namespace = List Text; parse_known_args = λ args. ok (args, []) }

abbrev pbs_script : Text
pbs_script = codes "#!/bin/bash -l\n#PBS -N sum\n# data\n\n#PBS -l walltime=1:00\ncd x\n#PBS -V\n"

parse_script_lem_example : PbsTorque.parse_script words (codes "#PBS") pbs_script ≡ (do
  args ←
      directive_args
        (codes "#PBS")
        (directive_lines (codes "#PBS") (after_shebang (read_lines pbs_script)))
  parsed ← words.parse_known_args args
  ok (record {
    options = parsed.0;
    shebang = shebang_of (read_lines pbs_script);
    directives = concat (directive_lines (codes "#PBS") (after_shebang (read_lines pbs_script)));
    script = some (concat (body (codes "#PBS") (after_shebang (read_lines pbs_script))));
    scheduler_options = none;
  }))
parse_script_lem_example = parse_script_lem words (codes "#PBS") pbs_script

abbrev slurm_script : Text
slurm_script = codes "#!/bin/bash\n#SBATCH --nodes=2\n#SBATCH --time=5\n\necho {x}\n"

parse_script-grouped_example : Slurm.parse_script words (codes "#SBATCH") slurm_script ≡ (do
  ds ←
      with_args words
        (codes "#SBATCH")
        (directive_lines (codes "#SBATCH") (after_shebang (read_lines slurm_script)))
  parsed ← words.parse_known_args (all_args ds)
  ok (record {
    options = parsed.0;
    shebang = shebang_of (read_lines slurm_script);
    directives = (plain_directives ds ++ resource_directives ds) ++ Slurm.hetjob;
    script = some (concat (body (codes "#SBATCH") (after_shebang (read_lines slurm_script))));
    scheduler_options = none;
  }))
parse_script-grouped_example = parse_script-grouped words (codes "#SBATCH") slurm_script

is_resource_directive_line-IsLongFlag_example :
    Slurm.is_resource_directive_line (codes "--contiguous" ∷ codes "--spread-job" ∷ []) ≡ false
is_resource_directive_line-IsLongFlag_example =
    is_resource_directive_line-IsLongFlag (codes "--contiguous" ∷ codes "--spread-job" ∷ [])
      (inl refl, (inr refl, tt))

abbrev old_resources : List Text
old_resources = codes "nodes=1:ppn=4,walltime=1:00" ∷ codes "mem=2gb" ∷ []

abbrev new_resources : List Text
new_resources = codes "walltime=2:00" ∷ []

abbrev old_dict : Dict
old_dict =
    (codes "nodes", codes "1:ppn=4")
    ∷ (codes "walltime", codes "1:00")
    ∷ (codes "mem", codes "2gb")
    ∷ []

abbrev new_dict : Dict
new_dict = (codes "walltime", codes "2:00") ∷ []

old_read : PbsTorque.normalize_resources old_resources ≡ ok old_dict
unfolding PbsTorque.normalize_resources PbsTorque.add_parts PbsTorque.split_once split insert
    text_eq
old_read = refl

new_read : PbsTorque.normalize_resources new_resources ≡ ok new_dict
unfolding PbsTorque.normalize_resources PbsTorque.add_parts PbsTorque.split_once split insert
    text_eq
new_read = refl

lookup-merge_resources_example :
    (PbsTorque.merge_resources (some old_resources) (some new_resources)
      ≡ ok (some (map PbsTorque.key_value (update old_dict new_dict))))
    × ((k : Text)
        → lookup k (update old_dict new_dict) ≡ or_else (lookup k new_dict) (lookup k old_dict))
lookup-merge_resources_example =
    lookup-merge_resources old_resources new_resources old_read new_read

abbrev settings : List (Text × Value)
settings =
    (codes "nodes", text_value (codes "5"))
    ∷ (codes "hold", true_value)
    ∷ (codes "time", none_value)
    ∷ []

five_is_plain : starts_with (codes "-") (codes "5") ≡ false
unfolding starts_with
five_is_plain = refl

pbs_script_read :
    PbsTorque.parse_script words (codes "#PBS") pbs_script
    ≡ ok (record {
      options = codes "-N" ∷ codes "sum" ∷ codes "-l" ∷ codes "walltime=1:00" ∷ [];
      shebang = some (codes "#!/bin/bash -l");
      directives = codes "#PBS -N sum\n#PBS -l walltime=1:00\n";
      script = some (codes "cd x\n#PBS -V\n");
      scheduler_options = none;
    })
unfolding PbsTorque.parse_script PbsTorque.parse_lines PbsTorque.parse_line read_lines starts_with
    strip worker_ng.Text.is_space worker_ng.Shlex.split
pbs_script_read = refl
