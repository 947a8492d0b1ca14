-- ===== src/Translate.antt =====
-- internal/translate: the formats of Anthropic and Gemini. Those of OpenAI are the gateway's own.
pub mod Anthropic
pub mod Gemini
