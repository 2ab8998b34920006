-- ===== src/Transforms.antt =====
-- Rewriting passes of xdsl/transforms.
pub mod DeadCode
