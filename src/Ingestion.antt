-- ===== src/Ingestion.antt =====
-- The ingestion of one document, apps/api/tasks/ingestion.py: the Celery task with its retries. The
-- tables are the rows that row level security shows to the task's tenant; the coverage of the
-- document has a row, by the foreign key. Identifiers are numbers, times ticks of the clock.
pub mod Rows
pub mod Run
pub mod Attempts
pub mod Completed
pub mod Assembled
pub mod Points
pub mod Settled
mod Examples
