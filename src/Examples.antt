-- ===== src/Examples.antt =====
-- The scripts below examples that make data for the example jobs.
pub mod Random
pub mod Words
