-- ===== src/Mention.antt =====
-- apps/agent/src/parse.ts: what a mention asks for.
pub mod Regex
pub mod Patterns
pub mod Parse
pub mod Steps
pub mod Short
pub mod Printing
mod Tests
