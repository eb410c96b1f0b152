-- ===== src/Music.antt =====
-- internal/music: modes, the identity of a flow, note events, and the packet-to-note mapper.
pub mod Mode
pub mod Note
pub mod Identity
pub mod Mapper
