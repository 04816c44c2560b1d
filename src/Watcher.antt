-- ===== src/Watcher.antt =====
-- pkg/proxmox/fetcher.go: the desired and the external state that the watcher compares.
pub mod Sort
pub mod Fetch
pub mod Reordering
