-- ===== src/Creator.antt =====
-- api/resourcecreator.go: the Kubernetes objects of an application.
pub mod Environment
pub mod Meta
pub mod Network
pub mod Storage
pub mod Containers
pub mod Pod
pub mod Access
pub mod Redirect
pub mod Accounts
pub mod Apply
