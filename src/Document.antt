-- ===== src/Document.antt =====
-- The host's document session (ara2-bridge-host/src/document).
pub mod Records
pub mod Session
pub mod Fields
pub mod Create
pub mod Regions
pub mod Update
pub mod Destroy
pub mod Editing
pub mod Requests
pub mod Keeps
pub mod Outcomes
pub mod Contracts
pub mod Dependents
pub mod Linked
pub mod Resolved
pub mod Integrity
