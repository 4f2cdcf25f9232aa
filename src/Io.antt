-- ===== src/Io.antt =====
-- application/src/io: the console line buffer, and readers around other readers.
pub mod LineBuffer
pub mod Readers
pub mod Range
pub mod Fixed
pub mod Limited
mod ReaderRuns
