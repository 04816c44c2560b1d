-- ===== src/Storage.antt =====
-- pkg/proxmox/storage.go: files on the storages of a node.
pub mod Contents
