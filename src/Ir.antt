-- ===== src/Ir.antt =====
-- The IR data structures of xdsl/ir/core.py: operations, blocks and regions as objects of a store.
pub mod Store
pub mod Block
pub mod Uses
pub mod Rewriter
pub mod Region
pub mod Erase
