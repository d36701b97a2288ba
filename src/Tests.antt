-- ===== src/Tests.antt =====
-- The theorems at concrete inputs.
mod BitMagic
mod Decoder
mod Csr
mod Block
mod Hart
mod Ecall
mod Programs
mod Memory
mod Machine
mod Fetches
mod Caches
