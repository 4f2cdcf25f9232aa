-- ===== src/Ssh.antt =====
-- application/src/ssh: the limits on logins, sessions and file handles, and the login itself.
pub mod Limiter
pub mod Auth
mod Runs
