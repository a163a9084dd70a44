-- ===== src/Reactor.antt =====
-- The reactor under src/reactor.
pub mod Assoc
pub mod Table
pub mod Epoller
pub mod Epoll
pub mod Dispatch
pub mod Wheel
pub mod Select
