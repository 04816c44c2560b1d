-- ===== src/GuestName.antt =====
-- pkg/guestname/guestname.go: which resource owns a Proxmox guest name.
pub mod Defs
pub mod Order
pub mod Owner
