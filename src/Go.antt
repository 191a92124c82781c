-- ===== src/Go.antt =====
-- What the source uses of Go itself: errors and panics, strings as bytes, maps, readers, and the
-- data of net/http. Each child is one of these.
pub mod Outcome
pub mod Strings
pub mod Maps
pub mod Http
pub mod Disk
pub mod Format
