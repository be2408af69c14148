-- ===== src/Python/Rules.antt =====
-- What actions do to the global variables, one rule for each way to build an action.
pub mod Keeps
pub mod Adds
pub mod AtMost
pub mod Wins
