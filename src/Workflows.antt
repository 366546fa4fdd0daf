-- ===== src/Workflows.antt =====
-- src/instruct_eval/workflows.py: the Temporal workflows.
pub mod Json
pub mod Experiment
mod Tests
