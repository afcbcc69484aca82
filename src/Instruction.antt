-- ===== src/Instruction.antt =====
-- program/src/instruction.rs: the instructions of the program and their byte format.
pub mod Types
pub mod Unpack
pub mod Pack
pub mod Canonical
pub mod RoundTrip
