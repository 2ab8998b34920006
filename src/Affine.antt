-- ===== src/Affine.antt =====
-- Affine expressions and maps (xdsl/ir/affine).
pub mod Expr
pub mod Arith
pub mod Denotes
pub mod Map
