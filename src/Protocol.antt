-- ===== src/Protocol.antt =====
-- shared/sih_shared/protocol.py: the messages of the application layer.
pub mod Codes
pub mod Envelope
pub mod Aad
pub mod Messages
pub mod Entries
pub mod RoundTrips
