-- ===== src/MsgStore.antt =====
-- lib/msgstore.go: the messages of one open directory, with selection, marks and search results.
pub mod State
pub mod Fetch
pub mod Actions
pub mod Select
pub mod Update
pub mod Fetching
pub mod Selecting
pub mod Visual
pub mod Contents
pub mod Deleting
pub mod Bodies
pub mod Failing
pub mod Answers
