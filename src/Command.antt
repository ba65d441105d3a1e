-- ===== src/Command.antt =====
-- pkg/upstream/command: tools that run a command of the machine. A text is a list of bytes here.
pub mod Quote
pub mod Expand
pub mod Writer
pub mod Tokens
pub mod Build
pub mod Run
mod Tests
