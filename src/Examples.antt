-- ===== src/Examples.antt =====
-- Runs of the model of mage/core at concrete states.
pub mod Data
pub mod Messages
pub mod Endpoints
pub mod Histories
pub mod Nodes
pub mod Invitations
pub mod Networks
pub mod Sockets
pub mod Calls
pub mod Moves
