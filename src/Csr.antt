-- ===== src/Csr.antt =====
-- The control and status registers: fields, registers and the register file.
pub mod Field
pub mod Registers
pub mod File
pub mod Words
pub mod Mstatus
pub mod Writes
pub mod Access
pub mod Ready
