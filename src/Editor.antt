-- ===== src/Editor.antt =====
-- text editor/: an editor of one buffer, with a command mode and an insert mode.
pub mod Buffer
pub mod Keys
pub mod Cells
pub mod Bounds
pub mod Saving
pub mod RwTest
pub mod Windows
pub mod Sessions
mod Tests
