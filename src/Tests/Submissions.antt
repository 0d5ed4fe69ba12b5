-- ===== src/Tests/Submissions.antt =====
-- A job that Slurm accepts.
use worker_ng.Base.{◌≡◌, ◌≢◌, refl, pos, false, some, [], ◌∷◌, ◌++◌}
use worker_ng.Text.{Text, codes, strip, is_space, text_eq}
use worker_ng.Text.Numbers.{AllDigits}
use worker_ng.Regex.{run, re_search, get_group}
use worker_ng.Errors.{ok}
use worker_ng.Submission.{Shell, parse_slurm, submit_job, wsub_directory, wresume_directory}
use worker_ng.Submission.Answers.{answer, parse_slurm-answer}
use worker_ng.Submission.Directories.{wsub_directory-wresume_directory}

abbrev pub accepted : Text
accepted = codes "Submitted batch job 1234 on cluster wice"

-- Every command is accepted with the same answer.
abbrev pub shell : Shell
shell = record {
  run = λ command. record {
    returncode = pos 0;
    stdout = codes "Submitted batch job 1234 on cluster wice\n";
    stderr = [];
  };
  is_empty = λ fs p. false;
}

pub accepted-parsed : parse_slurm accepted ≡ ok (codes "1234")
unfolding parse_slurm re_search run get_group text_eq
accepted-parsed = refl

accepted-submitted :
    (submit_job shell (codes "sbatch") (codes "--nodes=2" ∷ []) (codes "job.sh") false).outcome
    ≡ ok accepted
unfolding submit_job strip is_space
accepted-submitted = refl

parse_slurm-answer_example :
    (before : Text) × (cluster : Text) × (after : Text) × (accepted
      ≡ before ++ (answer (codes "1234") cluster ++ after))
    × (codes "1234" ≢ [])
    × AllDigits (codes "1234")
parse_slurm-answer_example = parse_slurm-answer accepted (codes "1234") accepted-parsed

wsub_directory-wresume_directory_example :
    (wsub_directory shell parse_slurm
        (codes "sbatch")
        (codes "--nodes=2" ∷ [])
        (codes "job.sh")
        false
      ≡ ok (some (codes "worker_1234")))
    × (wresume_directory shell (codes "sbatch") (codes "--nodes=2" ∷ []) (codes "job.sh") false
        ≡ ok (some (codes "worker_Submitted batch job 1234 on cluster wice")))
    × (codes "worker_1234" ≢ codes "worker_Submitted batch job 1234 on cluster wice")
wsub_directory-wresume_directory_example =
    wsub_directory-wresume_directory shell (codes "sbatch") (codes "--nodes=2" ∷ [])
      (codes "job.sh") accepted (codes "1234") accepted-submitted accepted-parsed
