-- ===== src/Tests.antt =====
-- The theorems applied to concrete states, and tests of the definitions.
mod Mm
mod Pools
mod Ipc
mod Proc
mod Drivers
mod Fs
mod Net
mod Disk
mod Screen
mod Ui
mod Lifecycle
