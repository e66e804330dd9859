-- ===== src/FileDrop.antt =====
-- workspace/filedrop.go: the files that a customer drops for a file_upload pipeline. Names: tables and
-- keys; Service: the operations of FileDropService.
pub mod Names
pub mod Service
pub mod Rows
pub mod Recorded
