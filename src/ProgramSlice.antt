-- ===== src/ProgramSlice.antt =====
-- The backward slice of passes/ProgramSlice.cpp: which instructions and blocks compute a value.
pub mod Control
pub mod Outline
pub mod Delegate
pub mod Dependences
