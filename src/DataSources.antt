-- ===== src/DataSources.antt =====
-- scripts/worker/data_sources.py: one module for each class. `Aggregate` is the class `DataSource`.
pub mod Range
pub mod Csv
pub mod Column
pub mod Aggregate
