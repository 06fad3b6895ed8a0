-- ===== src/Tests.antt =====
-- Runs of the model on concrete inputs, and each theorem at an input that meets its hypotheses.
mod Samples
mod Diff
mod Program
mod Stacks
mod Golden
mod Recorder
mod Seeding
mod Postgres
mod Control
