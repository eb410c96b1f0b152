-- ===== src/Peer.antt =====
-- internal/peer: the notes that an edge sends to a host.
pub mod Protocol
pub mod Window
pub mod Nodes
pub mod Host
pub mod Calls
