-- ===== src/Util.antt =====
-- src/util.cpp: text helpers of the whole program. A text is the list of its bytes, none of them zero.
pub mod Wildcard
pub mod Names
