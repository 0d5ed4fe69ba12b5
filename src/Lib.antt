-- ===== src/Lib.antt =====
-- Verification of the scripts of worker-ng, which runs many similar computations as one job of a
-- scheduler. `wsub` reads the job script and the data sources, and writes a work file with one
-- work item for each row of data; a server hands the items out and writes a log; `wsummarize` and
-- `wresume` read that log, and `wresume` writes a new work file with the items that are still to
-- be done.
--
-- The parts, with the code that each models:
--   * DataSources: scripts/worker/data_sources.py. Csv, Column and Range are the three kinds of
--     source, Aggregate is `DataSource`, which puts them side by side. A source is its state: the
--     lines, rows or numbers that it has still to deliver; `init` is the constructor, `next` is
--     `__next__`, and an exception is a value of `Result`.
--   * Workfile: scripts/worker/workfile_parser.py, Workfile/Create the writing part of
--     `create_workfile` in scripts/worker/utils.py, and Workfile/Sources the whole of it, from the
--     data sources of a request. A generator is the items that it yields and the value that it
--     returns, which a `for` loop does not see.
--   * Logs: scripts/worker/log_parsers.py. Lines has the regular expressions, Clock `parse_time`,
--     Parser the loop of `WorkitemLogParser._parse` with its dict of work items, Report the
--     columns and `WorkitemReport`, with Report/Clients for the statistics of the clients.
--   * Resume: scripts/wresume.py.in. Resume itself chooses the work items and writes the new work
--     file, from the log to the file; Job is `main` from the parsed options on, and Script the
--     whole of it.
--   * Options: Slurm and PbsTorque read the directives of job scripts, as
--     scripts/worker/slurm/option_parser.py and scripts/worker/pbs_torque/option_parser.py do;
--     Merging has their `merge_options`; CommandLine, Commands, Schedulers and Parser are
--     scripts/worker/option_parser.py, the options that pass through, the stored command, the
--     names of classes, and the parsers for submitting a job for the first time and again.
--     Argparse has the declared arguments and the namespaces, Attributes the reading of them, and
--     Loading finds the code of a scheduler by its name, with `get_submit_output_parser` of
--     scripts/worker/submit_output_parser.py.
--   * Submission: `submit_job` of scripts/worker/utils.py, the parsers of the scheduler's answer
--     in scripts/worker/slurm/submit_output_parser.py and
--     scripts/worker/pbs_torque/submit_output_parser.py, and the name that scripts/wsub.py.in and
--     scripts/wresume.py.in give the job's directory.
--   * Artifacts: the directory that a script makes, its clean-up and `exit_on_error` in
--     scripts/worker/utils.py. A `World` is the file system, a function of paths, with what was
--     printed; a script ends with a status or an exception. Reading a file, making a directory and
--     renaming one fail by what the file system holds at a path and on the way to it.
--   * Jobscript: `create_jobscript` of scripts/worker/utils.py, with Config for what it reads of
--     the configuration, and Format for Python's `str.format`.
--   * Wsub: `main` of scripts/wsub.py.in from the parsed options on, and Script the whole of it,
--     with `read_config_file` of scripts/worker/utils.py. Summary: scripts/wsummarize.py.
--   * Examples: examples/wc/create_data_files.py, which makes files of random words. Words has
--     `create_file`, Words/Files the rest of the script.
--   * Errors: scripts/worker/errors.py, and the outcomes of code that may raise.
--   * Base, Text, Regex, Dict and Shlex: lists and numbers, and what the scripts use of Python's
--     strings, regular expressions, dicts and `shlex`. A text is the list of its code points.
--     Regex is a backtracking matcher that lists all matches in Python's order, with the language
--     that an expression denotes. Below Tests the theorems are applied to concrete inputs.
--
-- Bounds and fuel: numbers are unbounded, as in Python. The iteration over the data sources,
-- `collect`, has fuel for its rounds, and one round more than the first source has rows is enough:
-- `create_workfile_from` gives that much. A repetition in a regular expression has the length of
-- the text as fuel, which is enough where every round consumes a character. Printing a number has
-- the number itself as fuel, more than its digits. The loop over the words of a line has one round
-- more than the line has columns, which is enough, since every word takes at least two; the rounds
-- of the loop over the lines are an argument, and one more than the maximum of words are enough
-- where the lines have room for every word. Every other loop is by recursion on what it reads.
--
-- Parameters: the sniffer and the reader of the module `csv`, the files by name, the data frames
-- of `pandas` with the rows that its operations keep and the counts of its groups, the command that
-- submits, the parsers of `argparse` with the attributes that their results have and the numbers
-- that they make of texts, the places that `pathlib` finds for names, the sections that
-- `configparser` reads, the draws of `random` within their bounds, whether the system finds a
-- directory empty, the texts that `pandas`, `repr` and exceptions print, and the exceptions of the
-- statistics that a summary prints: under the `pandas` that the repository asks for, those of the
-- walltimes raise `AttributeError`.
--
-- Simplifications: `\d` and `\w` are the ASCII digits, letters and underscore, and `int` reads
-- ASCII digits; text files are read with universal newlines. A file is its content. A job's
-- identification holds no slash, and permissions and full disks are left out. An integer
-- among the options is kept as its text. The scripts read the attributes of their options in one
-- step, before they make their directory. A module that is imported by name is one of the
-- repository's.
--
-- Not modelled: what `client_stats` prints on the way; what an exception leaves of a file that was
-- begun, but for the new work file of `wresume`; the scripts of the examples that write tables of
-- random numbers, and what the `mkdir` with parents of an example leaves when it fails; the
-- server, the client and the other programs in C++ below src.
pub mod Base
pub mod Text
pub mod Regex
pub mod Dict
pub mod Errors
pub mod DataSources
pub mod Workfile
pub mod Logs
pub mod Resume
pub mod Format
pub mod Artifacts
pub mod Config
pub mod Jobscript
pub mod Shlex
pub mod Options
pub mod Submission
pub mod Summary
pub mod Wsub
pub mod Examples
mod Tests
