-- ===== src/BoxRepo.antt =====
-- workspace/boxrepo.go: the Console's editor of the box's repos. Path: the paths that it takes;
-- Editor: reading and writing files; Mirrors: the copy of a repo on the customer's own host.
pub mod Path
pub mod Editor
pub mod Mirrors
pub mod Clean
pub mod Guard
pub mod Single
pub mod Safety
