-- ===== src/MsgSort.antt =====
-- worker/lib/sort.go and lib/sort/sort.go: the order of messages.
pub mod SortBy
pub mod Criteria
pub mod Orders
pub mod Sorted
pub mod Parse
pub mod Arguments
pub mod Ranks
