-- ===== src/Storage.antt =====
-- thread/storage_live/: a loader and buyers over the rooms of a store, each room behind a mutex.
pub mod Defs
pub mod Start
pub mod Ending
mod Tests
