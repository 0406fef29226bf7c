-- ===== src/Server/Api.antt =====
-- The decisions of the public API's handler: server/public/handler.go.
pub mod Columns
pub mod Fields
pub mod Folder
pub mod Window
pub mod Pages
pub mod Params
