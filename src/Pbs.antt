-- ===== src/Pbs.antt =====
-- pbs-client/src: the formats of the backup server's archives.
pub mod Varint
pub mod Catalog
