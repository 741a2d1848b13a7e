-- ===== src/Tests.antt =====
-- Concrete inputs on which the theorems apply, and the data that they share.
mod Data
mod Firewall
mod Scans
mod Wire
mod Services
mod Hosts
mod Secrets
mod Identified
mod Fleet
mod Collected
mod Stored
