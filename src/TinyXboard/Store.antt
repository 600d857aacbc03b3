-- ===== src/TinyXboard/Store.antt =====
-- The store of tiny-xboard (tiny-xboard/store.go): its state, the files under it, and its
-- operations, by what they do. Locks are not modelled: every operation here is one critical section,
-- or a sequence of them that the caller can see.
pub mod State
pub mod Save
pub mod LoadNode
pub mod LoadUsers
pub mod LoadTraffic
pub mod Users
pub mod Nodes
pub mod Recovery
pub mod Durable
