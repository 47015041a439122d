-- ===== src/Worker.antt =====
-- work/health_check_worker: the worker that checks the chains.
pub mod Gov
pub mod Messages
pub mod Outside
pub mod Cache
pub mod State
pub mod Steps
pub mod Endpoints
pub mod Pages
pub mod Ranking
pub mod Explain
pub mod Slashing
pub mod Signing
pub mod Direct
pub mod Validator
pub mod Proposals
pub mod Check
pub mod Mapping
pub mod Sample
