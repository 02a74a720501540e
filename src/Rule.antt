-- ===== src/Rule.antt =====
-- src/models: the rule tree, its conditions, and the facts that they are evaluated against.
pub mod Condition
pub mod Tree
pub mod Facts
pub mod WellTyped
