-- ===== src/Forge/Github.antt =====
-- internal/forge/forges/github.go: the parsing of URLs and of diffs, and the answers of the API.
pub mod Hunks
pub mod Url
pub mod Api
pub mod Answers
