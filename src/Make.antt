-- ===== src/Make.antt =====
-- Project 1 - Makefile, the program `make4061`: its targets, the parser of makefiles, the recursive
-- build, and `main`.
pub mod Target
pub mod Build
pub mod Parser
pub mod Main
pub mod Files
pub mod Output
mod Tests
