-- ===== src/Vsyscall.antt =====
-- vsyscall.c: the calls of the TempleOS kernel into the loader.
pub mod Defs
pub mod Frame
pub mod Invariant
pub mod Runs
pub mod Clusters
pub mod Served
mod Tests
