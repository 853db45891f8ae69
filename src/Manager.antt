-- ===== src/Manager.antt =====
-- `SessionManager` of core/session.go: many named sessions for each user key, the active one of
-- each, and their persistence. `State` has the data, `Persist` saving and loading, `Create`,
-- `Delete` and `Query` the operations; the proofs are in the other modules.
pub mod State
pub mod Persist
pub mod Create
pub mod Delete
pub mod Query
pub mod Views
pub mod Consistent
pub mod Steps
pub mod Modify
pub mod Requests
pub mod Removal
pub mod Invariant
pub mod Fresh
pub mod Gone
pub mod Switching
pub mod Known
pub mod Remember
pub mod RoundTrip
