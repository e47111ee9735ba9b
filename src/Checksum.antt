-- ===== src/Checksum.antt =====
-- lib/checksum.c: the digests that rmlint itself defines. The hash functions are vendored code.
pub mod Cumulative
pub mod Hex
pub mod Paranoid
