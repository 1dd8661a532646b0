-- ===== src/Cmd.antt =====
-- cmd: the programs of the repository that do more than wire parts together.
pub mod Migrate
