-- ===== src/Guest.antt =====
-- The data that the loader and the guest share, as the headers of the guest's runtime declare it
-- (HolyCRT/KernelA.HH and HolyCRT/VKernel.HH), against the declarations of the loader (templeos.h,
-- vsyscall.h, memory_map.h).
pub mod Layout
pub mod Boot
pub mod Symbols
pub mod Memory
pub mod Files
pub mod Tasks
pub mod Task
pub mod FixedArea
mod Tests
pub mod Places
pub mod Natural
pub mod Shared
pub mod Mapped
pub mod Flags
pub mod Numbers
pub mod HashFlags
pub mod Calls
pub mod Classes
