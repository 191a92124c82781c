-- ===== src/Runner.antt =====
-- internal/runner: the options of the program, how they are read, and the runner that starts the
-- proxy.
pub mod Env
pub mod Flags
pub mod Outputs
pub mod Exports
pub mod Ready
pub mod Starting
pub mod Main
pub mod Served
