-- ===== src/Rule.antt =====
-- src/rule.rs: the rule strings and the local rule set.
pub mod Types
pub mod Parse
pub mod Set
mod Examples
