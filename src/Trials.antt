-- ===== src/Trials.antt =====
-- src/instruct_eval/trials.py: the trials of an experiment.
pub mod Dispatcher
pub mod Outcome
pub mod Authorization
pub mod Release
mod Tests
