-- ===== src/Examples.antt =====
-- Concrete runs: each theorem with hypotheses, applied where they hold.
mod Data
mod Rotation
mod Wire
mod Registry
mod Identity
mod Connection
mod Client
mod Loops
mod Admission
mod Server
mod Tunnel
