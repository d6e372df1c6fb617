-- ===== src/Auth.antt =====
-- The token service (src/auth): its in-memory stores, the ledger and the issuer.
mod Tests
pub mod Challenges
pub mod Revocations
pub mod Feeds
pub mod FeedPage
pub mod Poller
pub mod FeedController
pub mod Jwt
pub mod Federation
pub mod Ledger
pub mod PinnedKeys
pub mod Issuer
