-- ===== src/PolicyStore.antt =====
-- components/authz-policy-admin/store.go: the policies and PIPs of each domain, in memory and on disk.
pub mod Maps
pub mod Files
pub mod Store
pub mod Load
pub mod Upload
pub mod Disk
pub mod Restart
mod Examples
