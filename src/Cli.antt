-- ===== src/Cli.antt =====
-- The command line client (src/cli): what does not read or print.
pub mod Split
pub mod Trie
