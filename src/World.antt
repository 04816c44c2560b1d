-- ===== src/World.antt =====
-- The world that the Go code acts on: the answers of the Kubernetes API server and of Proxmox,
-- the record of the calls made, the clients' caches and the guest objects behind pointers.
pub mod Error
pub mod Call
pub mod Env
pub mod Monad
pub mod Keeps
pub mod Trace
pub mod Ends
pub mod Sure
