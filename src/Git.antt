-- ===== src/Git.antt =====
-- internal/git: the package manifests of a repository and the client that reads it.
pub mod Manifest
pub mod Client
