-- ===== src/Logger.antt =====
-- pkg/logger/logger.go: the logger's options, its stores and writers, and the worker that handles
-- one transaction of the queue. The children hold the clients and the theorems.
pub mod Env
pub mod Storing
pub mod Worker
pub mod Queue
pub mod Clients
pub mod Setup
pub mod Running
