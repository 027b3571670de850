-- ===== src/Loader.antt =====
-- The loader of implementations: bootstrap/include/CandidateDiscovery.hpp, LoaderConfig.hpp and
-- bootstrap/src/Bootstrap.cpp.
pub mod Version
pub mod Candidate
pub mod Config
pub mod Discovery
pub mod Bootstrap
mod Examples
