-- ===== src/Interpreter.antt =====
-- The interpreter, xdsl/interpreter.py.
pub mod Scopes
pub mod Impls
pub mod Run
pub mod Calls
pub mod Balanced
pub mod Region
pub mod Values
pub mod Listed
pub mod Registers
