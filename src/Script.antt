-- ===== src/Script.antt =====
-- .github/script: the two scripts that run an example of bpftime for the workflows, each with two
-- child processes whose output it follows in the background.
pub mod Process
pub mod Monitor
pub mod Command
pub mod Example
pub mod Winding
pub mod Nginx
