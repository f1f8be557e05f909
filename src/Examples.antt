-- ===== src/Examples.antt =====
-- The theorems at concrete inputs, and runs of the definitions.
pub mod Data
pub mod Duties
pub mod Histories
pub mod Reloads
pub mod Managers
pub mod Turns
pub mod Packs
pub mod Texts
pub mod Messages
pub mod Sites
pub mod Sockets
pub mod Clients
pub mod Senders
pub mod Setups
pub mod Receivers
