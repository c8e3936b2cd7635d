-- ===== src/Http.antt =====
-- Package `wsp`, and what the proxies use of net/http.
pub mod Header
pub mod Writer
pub mod Response
pub mod Request
pub mod Rule
