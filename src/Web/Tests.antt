-- ===== src/Web/Tests.antt =====
-- Runs of the web server's functions, and the theorems at concrete inputs.
mod Data
mod Blocks
mod Buffers
mod Requests
mod Schedule
mod Start
