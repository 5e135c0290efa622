-- ===== src/Cache.antt =====
-- Steam/steam/CacheSystem: the cache files of the game content (GCF).
pub mod Outcome
pub mod Layout
pub mod Chain
pub mod Stream
pub mod Mask
pub mod Directory
pub mod Names
pub mod Mount
mod Tests
