-- ===== src/Pathbytes.antt =====
-- internal/pathbytes: raw-byte relative paths, their escaped display, and the Trash percent codec.
pub mod BytePath
pub mod TrashCodec
mod Tests
