-- ===== src/Updater.antt =====
-- internal/updater/update.go: versions, signed releases, and the replacement of the binary.
pub mod Version
pub mod Release
pub mod Replace
