-- ===== src/Treemerge.antt =====
-- lib/treemerge.c: whole directories that are duplicates of each other.
pub mod Count
pub mod Directory
pub mod Merger
