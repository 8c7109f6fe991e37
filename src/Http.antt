-- ===== src/Http.antt =====
-- src/http: requests and responses.
pub mod UrlDecode
pub mod Parser
pub mod Response
