-- ===== src/Seccomp.antt =====
-- src/landlockd_seccomp.c: plans, filters and their installation.
pub mod Plan
pub mod Bpf
pub mod Filter
pub mod Names
pub mod Hardening
