-- ===== src/Lib.antt =====
-- sea-dsa: a points-to analysis for LLVM that is field sensitive and based on unification.
--
-- The analysis keeps one graph per function (or one for the program). A node stands for a memory
-- object, a cell for an offset in a node, and the maps of the graph lead from values, arguments and
-- functions to cells. Merging two nodes leaves a forwarding pointer in one of them; a node whose
-- offsets cannot be told apart is collapsed. The passes build graphs, copy parts of one into another
-- and read off which values may alias. This library models the graphs and what is done to them.
--
-- Which file models what (paths from the root of the repository):
--   Common        lists, association lists, sets and 32-bit words, and Boolean tests
--   Llvm          what is read of LLVM: types, the data layout, the kinds of values. LLVM is not part
--                 of the repository, so this is a record that every definition takes.
--   FieldType     class FieldType (include/seadsa/FieldType.hh) and class Field (include/seadsa/Graph.hh)
--   NodeType      struct Node::NodeType (include/seadsa/Graph.hh): the marks of a node
--   Graph         class Graph, Node, Cell (include/seadsa/Graph.hh, lib/seadsa/Graph.cc), and
--                 DsaCallSite (lib/seadsa/DsaCallSite.cc):
--     Resolve     Cell::getNode, which follows forwarding pointers and shortens the paths
--     Offset      Node::Offset, getLink, setLink, hasLink; Query has the same as pure reads
--     Types       growSize, addAccessedType, joinAccessedTypes
--     Link        Cell::pointTo, Cell::unify, Node::addLink
--     Unify       Node::pointTo, collapseOffsets, collapseTypes, unifyAt
--     Table       mkCell, getCell, the return cells, allocation sites, call sites
--     Compress    Graph::compress; Dead: remove_dead; Remove: removeLinks, removeNodes
--     Merge       mergeUniqueScalar and mergeAllocSites, for one pair of nodes; Walk: along the links
--   Mapper        SimulationMapper (lib/seadsa/Mapper.cc); Injective: isInjective; Functional:
--                 FunctionalMapper
--   Alias         mayAlias (lib/seadsa/SeaDsaAliasAnalysis.cc)
--   AllocSite     DsaAllocSite::importCallPaths (lib/seadsa/DsaAllocSite.cc)
--   TypeUtils     AggregateIterator (lib/seadsa/TypeUtils.cc) and the FieldType constructor with its
--                 cache (lib/seadsa/FieldType.cc)
--   AllocWrap     flowsFrom, isNotStored and findWrappers (lib/seadsa/AllocWrapInfo.cc)
--   Cloner        Cloner::clone (lib/seadsa/Cloner.cc)
--   Transfer      Graph::import (lib/seadsa/Graph.cc) and the resolution of one call of the bottom-up
--                 pass (lib/seadsa/DsaBottomUp.cc)
--   TopDown       cloneAndResolveArguments of the top-down pass (lib/seadsa/DsaTopDown.cc)
--   Global        the global analyses (lib/seadsa/DsaGlobal.cc): Worklist, Propagation (the loop of the
--                 context-sensitive analysis), Mapping (computeCalleeCallerMapping, and the decision
--                 and the two propagations), Flat (the context-insensitive analysis), Closure
--                 (CallGraphClosure), Dependencies (lib/seadsa/CallGraphWrapper.cc)
--   CompleteCallGraph  the resolution of indirect calls (lib/seadsa/DsaCompleteCallGraph.cc): Inline,
--                 Loop (the bottom-up passes), Edges and Prune (what is added to and removed from LLVM's
--                 call graph, which is a record of operations with laws)
--   ShadowMem     the instrumentation with shadow variables (lib/seadsa/ShadowMem.cc): Reach (the nodes
--                 that a function shares with its callers), Fields, Visit, CallSite and Function. The
--                 instructions it inserts are a list, in the order in which they are made. ReadMod
--                 (doReadMod); Sites (getAllAllocSites) and Clobber (mayClobber, solveUses)
--   RemovePtrToInt  PointerPromoter (lib/seadsa/RemovePtrToInt.cc), for 64-bit pointers; integers have
--                 widths, and the new instructions are an expression
--   Color         the colours of nodes that simulate each other (lib/seadsa/DsaColor.cc)
--   Local         the local analysis (lib/seadsa/DsaLocal.cc), from the instructions of a function:
--     Values      isSkip, hasPointerTy, isNullConstant, hasNoPointerTy
--     Cells       the operations of Cell that the builders call
--     Gep         gcd, computeGepOffset, computeIndexedOffset, visitGep
--     Source      valueCell, isFixedOffset, visitCastIntToPtr
--     Memory      loads, stores, casts and geps; Atomic, Aggregate and Copy: the other accesses
--     Escape      isEscapingPtrToInt and visitPtrToIntInst
--     Call        external, indirect and allocating calls; Spec: the sea_dsa_ functions, visitCallBase
--     Initial     GlobalBuilder, the initializers of global variables
--     Analysis    phi nodes, and LocalAnalysis::runOnFunction
--   Tests         runs, and the theorems at concrete inputs
--
-- How state corresponds. Pointers are numbers: a node is found in the list of nodes of its graph by
-- its address, and a mutation writes it back. An operation is a function from a graph to a result, a
-- `fault` (a failed assertion, or a pointer to no node) or `out_of_fuel`. Where the code passes a cell
-- by reference and changes it, the new value is returned, or written back where the cell is stored.
-- Offsets are 32-bit and wrap around. Maps whose iteration order is that of pointers in memory are
-- association lists in the order of insertion.
--
-- Fuel. Following forwarding pointers has fuel for the number of nodes and two more; forwarding
-- pointers that form no cycle visit a node at most once. The search of remove_dead has the number of
-- nodes, each of which enters the worklist once at most, and markReachableNodes, which walks a compressed
-- graph as it is, has the number of nodes and one more. The calls of pointTo, collapseOffsets, addLink
-- and unifyAt of each other, Cloner::clone, the insert operations of both mappers, the walks over types,
-- over the uses of a value and over links, the closures, the colours, the bottom-up passes, getAllAllocSites, solveUses, PointerPromoter
-- and valueCell take their fuel as an
-- argument. When it runs out they say so, or give no result.
--
-- Not modelled: the orders in which LLVM gives blocks and functions (arguments), recursive calls in the
-- top-down pass and in the global analyses, the promotion of shadow
-- variables to registers, which LLVM does, memory SSA, the rest of the removal of
-- pointer-integer casts, printing and the command line.
pub mod Common
pub mod Llvm
pub mod FieldType
pub mod NodeType
pub mod Graph
pub mod Mapper
pub mod Alias
pub mod AllocSite
pub mod TypeUtils
pub mod AllocWrap
pub mod Cloner
pub mod Color
pub mod CompleteCallGraph
pub mod ShadowMem
pub mod RemovePtrToInt
pub mod Transfer
pub mod Local
pub mod TopDown
pub mod Global
mod Tests
