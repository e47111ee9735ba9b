-- ===== src/Shredder.antt =====
-- lib/shredder.c and lib/shredder.h
pub mod Types
pub mod Memory
pub mod ReadSize
pub mod Group
pub mod Original
pub mod Sift
pub mod Rejects
