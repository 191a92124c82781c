-- ===== src/Socket.antt =====
-- socket.go: the options of a relay, the pipe between its two connections, and its end.
pub mod Options
pub mod Pipe
pub mod Dialing
pub mod Relays
pub mod Servers
pub mod Streams
pub mod Ending
