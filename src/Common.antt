-- ===== src/Common.antt =====
-- What the whole system shares: `common/types.c`.
pub mod Memory
pub mod Strings
