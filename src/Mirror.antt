-- ===== src/Mirror.antt =====
-- workspace/pipelinemirror.go, pipelinemirror_adopt.go and pipelinemirror_import.go: pipeline
-- definitions as files of the box's git repository.
pub mod Slug
pub mod World
pub mod Files
pub mod Converge
pub mod Effects
pub mod Sync
pub mod Import
pub mod Adopt
