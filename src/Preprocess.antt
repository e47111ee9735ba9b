-- ===== src/Preprocess.antt =====
-- lib/preprocess.c
pub mod PatternCache
pub mod Compare
pub mod Cluster
pub mod SizeGroups
