-- ===== src/Writer.antt =====
-- server/writer: the writer that compresses a response, and the one around it that counts, keeps the
-- status and changes the header.
pub mod Gzip
pub mod Response
