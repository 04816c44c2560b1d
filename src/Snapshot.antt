-- ===== src/Snapshot.antt =====
-- Snapshots of guests: pkg/proxmox/virtualmachine.go and pkg/utils/utils.go.
pub mod Guests
