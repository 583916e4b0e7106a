-- ===== src/Examples.antt =====
-- Concrete runs: a volume on a disk in memory, and each theorem applied to concrete data.
mod Disk
mod Files
mod Users
mod Shells
mod Devices
mod Environment
mod Loader
mod Mounts
mod Tables
mod Numbers
mod Programs
mod Texts
mod Paths
