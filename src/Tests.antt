-- ===== src/Tests.antt =====
-- Runs of the definitions on concrete inputs, and the theorems applied to such inputs.
mod Checks
mod Frames
mod Workfiles
mod Sources
mod Logs
mod Resumption
mod Options
mod Submissions
mod Artifacts
mod Jobscripts
mod Parsers
mod Commands
mod Resubmission
mod Summaries
mod Clients
mod Words
mod Starts
mod Restarts
mod Accepted
mod Runs
mod Requests
