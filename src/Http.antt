-- ===== src/Http.antt =====
-- The HTTP interface: internal/http and the claims of internal/infra/auth. The routing itself is
-- chi's: a request comes with the route that it has matched.
pub mod Auth
pub mod Message
pub mod Wager
pub mod Wallets
pub mod Health
pub mod Safe
pub mod Router
