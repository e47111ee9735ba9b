-- ===== src/Replay.antt =====
-- lib/replay.c: the results of an earlier run read again, filtered and written. The children: the
-- options that a file must pass, the groups of files, and what becomes of a group.
pub mod Checks
pub mod Groups
pub mod Write
