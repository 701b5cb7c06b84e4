-- ===== src/Parser.antt =====
-- internal/parser: the handlers of the languages, by file extension, and what they extract from the
-- trees of tree-sitter.
pub mod Tree
pub mod Labels
pub mod Statement
pub mod Golang
pub mod Python
pub mod Typescript
pub mod Php
pub mod Registry
pub mod Handlers
