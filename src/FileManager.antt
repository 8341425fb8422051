-- ===== src/FileManager.antt =====
-- file_manager/: two panels over a file system, moved by keys.
pub mod Panel
pub mod Listing
pub mod Keys
pub mod Windows
pub mod Looks
pub mod Cursor
pub mod Session
pub mod Marks
pub mod Unmarked
pub mod Entering
pub mod Handling
pub mod Highlights
pub mod Opening
pub mod Starting
pub mod Running
mod Tests
