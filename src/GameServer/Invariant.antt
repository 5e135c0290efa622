-- ===== src/GameServer/Invariant.antt =====
-- What holds of the runtime state whenever the mutex is free, by groups of critical sections.
pub mod Base
pub mod Auth
pub mod Consume
pub mod Delivery
