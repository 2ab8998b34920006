-- ===== src/Interpreters.antt =====
-- The parts of xdsl/interpreters that compute: integers and shaped arrays.
pub mod Integers
pub mod ShapedArray
