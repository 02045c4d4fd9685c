-- ===== src/Tests.antt =====
-- Concrete runs of the modelled code: the theorems at one input each.
pub mod Storage
pub mod Wire
pub mod Serving
pub mod Sessions
pub mod Net
pub mod Threads
pub mod Programs
pub mod Sockets
pub mod LoopThreads
