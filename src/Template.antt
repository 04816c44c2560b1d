-- ===== src/Template.antt =====
-- pkg/proxmox/virtualmachinetemplate.go: templates of virtual machines and their cloud-init.
pub mod CloudInit
pub mod IpConfigs
pub mod IpRoundTrip
pub mod Machine
