-- ===== src/Config.antt =====
-- pkg/config/loader.go: loading the configuration file, and loading it again when it changes.
pub mod Defaults
pub mod Watch
pub mod Accepted
pub mod Quiet
mod Tests
