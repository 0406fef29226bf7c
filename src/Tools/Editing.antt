-- ===== src/Tools/Editing.antt =====
-- The edits that the page, layout and storage tools make to a text (tools/editing.go).
mod Lines
pub mod Patches
pub mod Deletes
pub mod Near
pub mod First
unfoldable pub use Lines.*
