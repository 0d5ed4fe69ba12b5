-- ===== src/Logs.antt =====
-- scripts/worker/log_parsers.py: the server's log, line by line, and the report on its work items.
pub mod Clock
pub mod Lines
pub mod Parser
pub mod Report
