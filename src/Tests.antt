-- ===== src/Tests.antt =====
-- Concrete inputs, and each theorem at one of them.
mod Samples
mod Flows
mod Notes
mod Pipelines
mod Configs
mod Streams
mod Apps
mod Peers
