-- ===== src/Util.antt =====
-- rs_util.c: the helpers that compute.
pub mod MoveLeft
