-- ===== src/Tests.antt =====
-- Runs at concrete inputs: each theorem of the list in the library's header that has hypotheses, at
-- an input where they hold.
mod Trees
mod Tables
mod Transactions
mod Files
mod Caches
mod Logs
mod Followers
mod Sessions
