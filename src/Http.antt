-- ===== src/Http.antt =====
-- services/operator-backend/src/http: the checks that a request passes before a service sees it.
pub mod Validate
pub mod Auth
pub mod Token
pub mod CallerAuth
pub mod RateLimit
