-- ===== src/Examples.antt =====
-- The theorems at concrete values.
pub mod Store
pub mod TabBar
pub mod Typing
pub mod Mail
pub mod Folders
pub mod Server
pub mod Texts
pub mod Boxes
