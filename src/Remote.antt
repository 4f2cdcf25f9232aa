-- ===== src/Remote.antt =====
-- application/src/remote: the tokens of the panel.
pub mod Jwt
