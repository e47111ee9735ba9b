-- ===== src/Cmdline.antt =====
-- lib/cmdline.c: what the options of the command line do to the options of a run. The children: the
-- lint types, and the other options with the checks at the end.
pub mod LintTypes
pub mod Options
