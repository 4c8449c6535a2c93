-- ===== src/Core.antt =====
-- core/common.cpp and core/ParamWriteAnalyzer.cpp: what the passes ask of the syntax tree of clang.
pub mod Ast
pub mod Exprs
pub mod Types
pub mod ParamWrite
mod Tests
