-- ===== src/Client.antt =====
-- pkg/proxmox: the client of one Proxmox cluster, its caches and the operations on guests.
pub mod Cache
pub mod FromRef
pub mod Lookup
pub mod Power
pub mod Create
pub mod Update
pub mod Options
pub mod Network
pub mod Disk
pub mod Pci
pub mod PciConfig
pub mod PciRoundTrip
pub mod Quiet
pub mod Harmless
pub mod HarmlessConfig
pub mod Caching
pub mod Forgets
pub mod Classify
pub mod Retry
pub mod Uptime
pub mod Reuse
pub mod Container
pub mod ContainerDeletion
pub mod ContainerPower
pub mod NetworkBounds
pub mod ContainerCache
pub mod ContainerSettled
pub mod ContainerProgress
