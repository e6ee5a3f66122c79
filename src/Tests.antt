-- ===== src/Tests.antt =====
-- The theorems at concrete inputs.
mod Ports
mod Listeners
mod Apps
mod Parts
mod Queries
mod Passwords
mod Keys
mod Stores
mod Volumes
mod Containers
