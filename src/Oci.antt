-- ===== src/Oci.antt =====
-- pkg/proxmox/container_oci.go: containers that are made from OCI images.
pub mod Names
pub mod Tag
pub mod Recognition
pub mod Volume
pub mod Selection
pub mod Create
pub mod Harmless
pub mod HarmlessCreate
