-- ===== src/FileManager/Cursor.antt =====
-- What CoordControl and RenderingListDir of file_manager/read_dir.c keep, and where KEY_UP and
-- KEY_DOWN put the cursor.
mod Screen
mod Geometry
pub mod Moves
pub use Screen.*
pub use Geometry.*
