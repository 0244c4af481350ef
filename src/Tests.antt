-- ===== src/Tests.antt =====
-- Runs on small graphs, and the theorems at concrete inputs.
mod Toy
mod Unify
mod Nodes
mod Graphs
mod Values
mod Local
mod Global
mod Closure
mod Calls
mod Shadow
mod Clobber
mod Promote
