-- ===== src/Auth.antt =====
-- Steam/steamclient_legacy/auth: the tickets that game clients send.
pub mod Memory
pub mod Classic
pub mod Ticket
pub mod Accept
pub mod Agree
pub mod Fingerprint
pub mod Tests
