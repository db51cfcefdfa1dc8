-- ===== src/Ftl.antt =====
-- modules/ftl/ftl.c: the flash translation layer.
pub mod State
pub mod Select
pub mod Recycle
pub mod Trim
pub mod Replace
pub mod Read
pub mod Wear
pub mod StaticWear
pub mod Hybrid
pub mod Write
pub mod Start
pub mod Snapshot
pub mod Replay
pub mod Erase
pub mod Mapping
pub mod Tests
mod LogTests
