-- ===== src/File.antt =====
-- src/file: transfer of files to a socket, and mapped files.
pub mod Sendfile
pub mod Mmap
