-- ===== src/Broker.antt =====
-- src/landlockd_exec.c: the allowlist that a broker makes of a policy, and the decisions it takes by it.
pub mod Types
pub mod Decisions
pub mod Components
pub mod Allowlist
pub mod Items
pub mod Rules
pub mod Initialised
pub mod Leases
pub mod Taken
