-- ===== src/Text.antt =====
-- Python's `str` as a list of code points, with the methods that the scripts call.
pub mod Base
pub mod Lines
pub mod Scan
pub mod Paths
