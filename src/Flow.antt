-- ===== src/Flow.antt =====
-- internal/flow: canonical flow identity, the bounded registry and the rule selector.
pub mod Key
pub mod Prefix
pub mod Selector
pub mod Registry
