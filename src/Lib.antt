-- ===== src/Lib.antt =====
-- The task graph of APAC, which turns the statements of a C++ function into OpenMP tasks.
--
-- The tool parses a function with clang into instructions, each with the elements (variables and
-- array elements) that it reads and writes. From these it builds a graph (transforms/TaskGraph):
-- one node for each instruction, and a link where a later instruction has to wait for an earlier
-- one. The `depend` clauses of the tasks are read off the links.
--
-- Files:
--   Prelude          numbers, Boolean tests, lists as vectors and sets, maps, and the loops that
--                    search a graph (Search) or walk a tree (Walk)
--   Core.Exprs, Core.Types
--                    core/common.cpp: the walks of an expression, and the loops over a type
--                    (Types.Const is on `isFullConstType`, Types.Depth on the depths of pointers)
--   Core.ParamWrite  include/ParamWriteAnalyzer.hpp and src/ParamWriteAnalyzer.cpp of
--                    transforms/TaskGraph: which parameters a function writes to. ParamWrite.Writes
--                    is on one body, ParamWrite.Analysis on a function, ParamWrite.Ends on the fuel
--   TaskGraph        include/NodeDependency.hpp, include/AliasArg.hpp (AliasArg) and
--                    include/Instruction.hpp (Instruction) of transforms/TaskGraph
--   TaskGraph.Node   include/Node.hpp and src/Node.cpp: `addLink`, and `computeInOutInDep`, which gives
--                    the clauses. Node.Link is on the links, Node.Depend and Node.Shares on the
--                    elements in the clauses, and Node.Clauses on the order that the clauses keep
--   TaskGraph.Graph  include/Graph.hpp and src/Graph.cpp: `handleInstructionDeps` (a fold over the
--                    dependencies, then the flush of its buffers), `InstructionToGraph`, which
--                    recurses into scopes, and `generateGraph`. Graph.Growth, Done, Causes and Flush
--                    are on the steps, Graph.Handled on the whole of one call, Graph.Order on the
--                    invariant of the maps, Graph.Alloc, Extends and Build on the nodes and the
--                    nested scopes, Graph.Preserves and Conflicts on the order of the instructions
--   TaskGraph.Fusion of the same files, the fusion of two nodes: `fuseNodes`, `hasCommonArrayElement`
--                    and the inner loop of `nodesFusion`
--   TaskGraph.Clauses
--                    of the same files, `nodesComputeInOut`: Clauses.Grows is on the steps, Clauses.Marked
--                    on the whole
--   TaskGraph.Reduction
--                    of the same files, `transitiveReduction`. Reduction.Gather is on the search,
--                    Reduction.Links and Paths on one node, Reduction.Reduced on the whole graph
--   TaskGraph.AliasTable
--                    include/AliasTableMaps.hpp, src/AliasTableIndexMap.cpp,
--                    src/AliasTableAliasMap.cpp and `getAliasArg` of src/AliasTable.cpp: the maps from
--                    variables and indexes to elements. AliasTable.Index and Null are on the maps of
--                    indexes, AliasTable.Table on the whole table, AliasTable.Aliases on the alias
--                    sets, AliasTable.Queries on what is asked of them, and
--                    AliasTable.Related on the parents and children of the elements of
--                    an array (src/AliasTable.cpp)
--   TaskGraph.StmtOrder
--                    include/InstructionsOrderManager.hpp and src/InstructionsOrderManager.cpp: the
--                    groups of statements that become one task
--   TaskGraph.Output include/OutputHandler.hpp and src/OutputHandler.cpp: the choice of the pragma of a
--                    group of statements (Output.Status, and Output.Calls on the search for calls), its
--                    text (Output.Pragmas, Output.Variables) and the edits of the source
--                    (Output.Rewrite). Output.Ends is on the fuel
--   TaskGraph.Visitor
--                    include/ASTTaskGraphVisitor.hpp and src/ASTTaskGraphVisitor.cpp: the dependencies
--                    of an instruction (Visitor.Dependency), and the for statements (Visitor.Adds,
--                    Visitor.Merged and Visitor.Scopes). Visitor.Tests also has the example of
--                    AliasTable.Queries
--   TaskGraph.Tests  a small program as an example; the other components have a Tests of their own
--
-- State. A `shared_ptr` to a node or an element is its number, and the nodes stand in a heap (a
-- function from numbers to nodes), as links change both ends. The two static counters are fields of
-- the state. An `unordered_map` is an association list in its order of iteration, or a function where
-- it is only searched, assigned and erased; a `std::set` of elements is a list sorted by number. What
-- the alias table answers (`getArrayElementParents` and `getArrayElementChildren`) is the record
-- `Elements`, and what is asked of clang is in the records `Clang`, `Ast`, `Types` and `Source`: these
-- are arguments of the definitions. The rewriter of clang is not modelled, only what it is asked for.
--
-- Null pointers. A null pointer that is returned is `none`. Where an insertion into the alias table
-- dereferences one, its result is `none`. Assertions that are followed by returns are not modelled, only
-- these returns; in the output handler, in `getDirectChildren`, `isFullConstType` and
-- `getPtrDepthAccess` a failed assertion or the use of a null pointer or a null type has no result,
-- `none`. That `isConstQualified` asserts that its type is not null is documented behaviour of clang.
--
-- Names. A variable is named by the number of its canonical declaration, so `getCanonicalDecl` is not
-- written out in the alias table.
--
-- Fuel. The loops are over lists, but for these, which run on fuel and give `none` without: the inner
-- loop of `nodesFusion` (more fuel than the graph has nodes is enough, since each round takes a node
-- out of the graph), the search of `transitiveReduction` (as much as there are nodes, since each is
-- visited once), the queries of the alias sets (more than there are elements to be reached), the
-- walks of an expression (as much as its tree has nodes), and the recursions over types, over the
-- operands of an expression, over function bodies, over nested scopes and over subgraphs. The
-- counters are natural numbers, as a source file never holds 2^31 instructions.
--
-- Not modelled: the printing of graphs and nodes (`GenerateDotGraph` too), the handlers of expressions
-- and of if statements of the visitor, `getOrAddAliasArg`, the rest of `nodesFusion` with
-- `optimizeGraph` and `updateInstructionOrderFromGraph`, which come next; and the other transformations
-- (Constify, Unstack, Heapify and those that rewrite text) and the driver, which runs the tools.
pub mod Core
pub mod Prelude
pub mod TaskGraph
