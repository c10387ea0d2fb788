-- ===== src/Tests.antt =====
-- Concrete inputs to the theorems, and runs of the models on them.
pub mod Machine
mod Filters
mod Addresses
mod Networks
mod Switches
mod Ports
mod Tables
mod Packets
mod Stretches
mod Builds
pub mod Fibs
mod Built
mod Texts
mod Overlaps
mod Clicks
