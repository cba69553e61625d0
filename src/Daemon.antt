-- ===== src/Daemon.antt =====
-- src/landlockd_daemon.c: the requests by which a client has the daemon run a program.
pub mod Requests
pub mod Received
pub mod Limits
pub mod Delivered
pub mod Cache
pub mod Cached
pub mod Serves
pub mod Renewed
pub mod Cleaned
