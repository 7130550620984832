-- ===== src/Utils.antt =====
-- utils/utils.c: memory and string functions.
pub mod Memory
pub mod Strings
pub mod Text
mod Tests
