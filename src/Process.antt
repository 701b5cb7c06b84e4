-- ===== src/Process.antt =====
-- config/config.go, cmd/codewalker/main.go, server/version.go and server/middleware/recovery.go: the
-- configuration, the life of the process, and what a panic of a handler becomes. A duration is a
-- number of nanoseconds.
pub mod Config
pub mod Life
