-- ===== src/Client.antt =====
-- client/sih_client: the client's identity, its session with the server, and the object API.
pub mod Identity
pub mod Session
pub mod Api
pub mod EndToEnd
pub mod Chunks
pub mod Admission
