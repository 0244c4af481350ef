-- ===== src/ShadowMem.antt =====
-- lib/seadsa/ShadowMem.cc: pseudo-instructions that define and use shadow variables, one for each
-- field of a node, put memory into SSA form.
pub mod Fields
pub mod Reach
pub mod Sites
pub mod ReadMod
pub mod Clobber
pub mod CallSite
pub mod Visit
pub mod Function
