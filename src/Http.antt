-- ===== src/Http.antt =====
-- src/http: the parser of messages.
pub mod Parser
