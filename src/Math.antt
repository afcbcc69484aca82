-- ===== src/Math.antt =====
-- program/src/math.rs: the calculator, component by component.
pub mod CeilDiv
pub mod Swap
pub mod Exchange
pub mod Decimal
pub mod Lots
pub mod Fibonacci
