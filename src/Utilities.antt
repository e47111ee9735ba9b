-- ===== src/Utilities.antt =====
-- lib/utilities.c
pub mod Path
pub mod Offset
pub mod LinkType
pub mod Queues
