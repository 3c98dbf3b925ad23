-- ===== src/Tests.antt =====
-- Test data, tests and the theorems at concrete inputs.
pub mod Pipe
mod Framing
mod FramedSession
mod FramedClient
mod FramedServer
pub mod Epoll
mod EpollClient
mod Poll
mod PollClient
mod SelectServer
mod SelectClient
mod IocpClient
mod Blocking
mod Iocp
