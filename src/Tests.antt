-- ===== src/Tests.antt =====
-- Concrete inputs for the theorems about rmlint's code.
pub mod Data
pub mod Samples
pub mod Choice
pub mod Sifting
pub mod Preprocessing
pub mod Strings
pub mod Digests
pub mod Blocks
pub mod Directories
pub mod Splitting
pub mod Scheduling
pub mod Replaying
pub mod Lints
