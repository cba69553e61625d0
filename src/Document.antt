-- ===== src/Document.antt =====
-- src/landlock_policy_ir.c: the policy as it is read, which grows rule by rule and is copied and
-- released as a whole.
pub mod Types
pub mod Add
pub mod Operations
pub mod Spec
pub mod Added
pub mod Parts
pub mod Copy
pub mod Reset
pub mod Wellformed
pub mod CopyLaws
pub mod ResetLaws
pub mod Copied
pub mod AddedParts
pub mod AddedRules
pub mod AddedObjects
pub mod Extended
pub mod Built
pub mod Lifecycle
