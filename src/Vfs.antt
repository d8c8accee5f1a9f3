-- ===== src/Vfs.antt =====
-- vfs.c: the files of the virtual drives, and the cluster numbers by which TempleOS names them.
pub mod Clusters
pub mod Stat
pub mod Files
pub mod Dirs
mod Tests
