-- ===== src/Cli.antt =====
-- src/cli_parse.c: the command line. An argument vector is the list of its strings, and an index into
-- it is what is left from there.
pub mod Options
pub mod Numbers
pub mod Verbs
pub mod Lists
pub mod Parse
