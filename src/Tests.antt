-- ===== src/Tests.antt =====
-- The theorems at concrete inputs.
mod Names
mod Guests
mod Reconciles
mod Sets
mod Clients
mod Images
mod Containers
mod Objects
mod Fetchers
