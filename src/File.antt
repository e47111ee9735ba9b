-- ===== src/File.antt =====
-- lib/file.h: the record of a file, and the heap of such records. A pointer to an RmFile is its
-- address, a pointer to a queue of files is the address of a list. Strings are lists of bytes.
pub mod Links
pub mod Types
pub use Types.*
