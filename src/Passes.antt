-- ===== src/Passes.antt =====
-- Passes with their options, xdsl/passes.py.
pub mod Hints
pub mod Spec
pub mod Items
pub mod Refines
pub mod Typed
pub mod Run
pub mod Setup
