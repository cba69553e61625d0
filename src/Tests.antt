-- ===== src/Tests.antt =====
-- Concrete kernels, plans and policies, and the theorems applied to them.
mod Kernels
mod Seccomp
mod Sandbox
mod Ruleset
mod Policy
mod Preflight
mod Cli
mod Document
mod Broker
mod Execution
mod FsPolicy
mod Wire
mod Audit
mod Daemon
