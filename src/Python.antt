-- ===== src/Python.antt =====
-- Python's exceptions and statements as actions on a state, what they call outside, and rules to
-- reason about them.
pub mod Exec
pub mod World
pub mod Run
pub mod Floats
pub mod Rules
