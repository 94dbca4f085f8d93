-- ===== src/Web.antt =====
-- Project 3 - Multithreaded Web Server: the request queue, the cache, requests and replies, the
-- worker's service of one request, the threads, and the checks of the command line.
pub mod Queue
pub mod Cache
pub mod Content
pub mod Request
pub mod Reply
pub mod Config
pub mod Worker
pub mod Threads
pub mod Heap
pub mod Memory
pub mod Sockets
mod Tests
