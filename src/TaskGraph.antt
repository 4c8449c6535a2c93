-- ===== src/TaskGraph.antt =====
-- transforms/TaskGraph: from the instructions of a function to the graph of its tasks.
pub mod AliasArg
pub mod AliasTable
pub mod Instruction
pub mod Node
pub mod Graph
pub mod StmtOrder
pub mod Clauses
pub mod Fusion
pub mod Reduction
pub mod Output
pub mod Visitor
mod Tests
