-- ===== src/Llm.antt =====
-- internal/llm: the prompts, and what is made of the answers of the model.
pub mod Summary
pub mod Context
pub mod Prompts
pub mod Anthropic
