-- ===== src/Sim.antt =====
-- src/sim and include/besm-666/sim, without the hart: the configuration, the hooks and the machine.
pub mod Config
pub mod Machine
pub mod Ranges
pub mod Booted
pub mod Transfers
pub mod Fetches
pub mod Hooks
