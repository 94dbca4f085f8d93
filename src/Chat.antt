-- ===== src/Chat.antt =====
-- The chat server of `Project 2 - Server`.
pub mod Users
pub mod Command
pub mod Server
pub mod Connect
pub mod Sockets
pub mod Loop
pub mod Client
pub mod Delivery
mod Tests
