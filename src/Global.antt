-- ===== src/Global.antt =====
-- lib/seadsa/DsaGlobal.cc: the passes that bring the graphs of callers and callees together.
pub mod Worklist
pub mod Dependencies
pub mod Propagation
pub mod Mapping
pub mod Flat
pub mod Closure
