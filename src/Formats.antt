-- ===== src/Formats.antt =====
-- lib/formats: what the formatters write
pub mod Json
