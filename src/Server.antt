-- ===== src/Server.antt =====
-- server/sih_server: the database's tables, the credential registry, permissions, authentication
-- and the object store.
pub mod Database
pub mod Registry
pub mod Identity
pub mod Authorization
pub mod Auth
pub mod Objects
pub mod Tunnel2
pub mod Connection
