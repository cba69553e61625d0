-- ===== src/Wire.antt =====
-- src/landlock_policy_loader.c: the bytes by which the policy helper hands a policy document to its caller.
pub mod Bytes
pub mod Cleanups
pub mod Reader
pub mod Load
pub mod Whole
pub mod Reads
pub mod Safe
pub mod SafeWhole
pub mod File
pub mod Loaded
pub mod Store
pub mod Parses
pub mod Items
pub mod Rules
pub mod Objects
pub mod Addfds
pub mod RoundTrip
pub mod Handed
