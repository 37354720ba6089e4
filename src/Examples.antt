-- ===== src/Examples.antt =====
-- The theorems at concrete machines, and small runs of the calls.
pub mod Machines
mod Desks
mod Slots
mod Shelves
mod Pools
mod Files
mod Contents
mod Consoles
mod Times
mod Calls
mod Lines
mod Programs
mod Drawings
