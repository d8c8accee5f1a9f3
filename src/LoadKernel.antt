-- ===== src/LoadKernel.antt =====
-- The loader of the kernel image of load_kernel.c.
pub mod Memory
pub mod Defs
pub mod Table
pub mod Import
pub mod Patch
pub mod Loop
pub mod Items
pub mod Absolute
pub mod Split
pub mod Steps
pub mod Whole
pub mod Image
mod Tests
