-- ===== src/Lib.antt =====
-- templeos-loader: the host side of a user-space TempleOS, in C.
--
-- The loader maps the guest's memory (memory_map.c), initialises the virtual drives (vfs.c, called
-- from loader.c, main.c and mainstatic.c), loads the kernel and patches it (load_kernel.c, with the
-- functions of host.c behind the thunks of thunk.h), installs its trap handlers and enters the
-- guest's runtime (loader.c), all in the order of main.c or mainstatic.c, and then serves the calls
-- of the guest's kernel (vsyscall.c), which work on the virtual file system (vfs.c), the symbol
-- table (symtable.c) and the console.
--
-- Symtable: symtable.c. Symtable/Linked/Defs.antt has addsym, lookupsym and findsym over a heap of
--   nodes, with fuel for the loops: one round for each node and one more is enough. Symtable.antt
--   has the same functions on the list of records that the nodes form, which the other parts use.
-- Datetime: datetime.c. `localtime_r` is an argument.
-- MemoryMap: memory_map.c and the constants of memory_map.h. `mmap` is an argument, a function from
--   the areas mapped so far and the request to an address or a failure. Addresses are 64-bit
--   patterns, with their wrap-around written out.
-- Console: the case VSYSCALL_PUTCHAR of vsyscall.c, with its static variables as a record.
-- Vfs: vfs.c. Clusters.antt has the cluster numbers (get_node_by_path, get_node_by_clus) over the
--   array `assignments`, an access out of which is a fault; Stat.antt has vfs_stat and
--   vfs_statclus, Files.antt the functions on whole files, Dirs.antt the directory streams. The
--   loop of get_node_by_path runs MAX_ASSIGNMENTS rounds, as in the source.
-- Drives: vfs_init of vfs.c, setup_vfs of loader.c and the loop over `--drive` of main.c, which
--   mainstatic.c repeats. Their effect is the sequence of calls into PhysFS.
-- Vsyscall: vsyscall.c. The whole state is a record; a call takes it to a reply and a new state,
--   ends the process, or faults; Runs.antt has sequences of calls. Texts and buffers in the guest's
--   memory are read through functions of an address, and what a call stores there is part of the
--   reply; an access to memory that is not the guest's is a fault. Which bases `arch_prctl` takes is
--   an argument.
-- LoadKernel: load_kernel.c. Memory.antt has the memory, a function from addresses to bytes,
--   Defs.antt LoadOneImport and load_kernel over it, Table.antt the entries of the patch table as
--   bytes, Items.antt whole tables and what they mean. The file is the list of its bytes. The loops
--   run on fuel, where the length of the patch table is enough: a round reads six bytes or more.
--   Every address is taken to be mapped; main, before it calls load_kernel, tests that the area of
--   the kernel is.
-- Host: the functions of host.c and its table of them, with the addresses of the thunks and the
--   clock as arguments.
-- Loader: get_symbol and loader_enter of loader.c. The runtime is the guest's: its calls are the
--   list of the addresses that are called.
-- Platform: what the loader does not implement, PhysFS and `basename` and `localtime_r` of the C
--   library, as a record that the other parts take as an argument. Platform/Toy.antt is a value of
--   it. `basename` may change the path in place; that of musl, which the README asks for, cuts the
--   slashes at its end, so what relies on a path that stays as it is says so for paths that do not
--   end in a slash.
-- Main: main.c from the mapping of memory to the entry into the guest, with what argtable3 parsed,
--   the files and the answers of the kernel as one record. Static: mainstatic.c, the walk over the
--   export table, on fuel, and its `main`, whose effect on the guest is a list of actions.
-- Trap: handler, bugcheck and install_trap_handlers of loader.c. Which addresses can be read is an
--   argument, and what can be read can be written, as the loader maps memory. So is the number of
--   probes that the pipe of bugcheck holds, which nothing reads: a write into the full pipe blocks,
--   so the loop needs no fuel.
-- Thunk: the macros of thunk.h as lists of instructions. A machine has registers, a stack pointer
--   and a memory of 64-bit words; the called C function is any function on machines that keeps to
--   the System V convention. Guest.antt has the guest's side of a system call, _VSYSCALL of
--   HolyCRT/VSysCall.HC, on the same machine; Import.antt and Export.antt the thunks that
--   bin2elf.py writes for the static build.
-- HostFs: the guest's driver for host drives, HolyCRT/BlkDev/FileSysHostFS.HC, with its calls going
--   through the dispatcher of Vsyscall, and the walk over it in Name2DirClus of
--   HolyCRT/BlkDev/DskStrB.HC. HostFs.antt has the finds, Files.antt reading and writing, Delete.antt
--   the deletion; Blocks.antt has the files that are open by blocks, as far as
--   HolyCRT/BlkDev/DskCFile.HC treats those of host drives apart. What the driver calls of the
--   TempleOS kernel is a record that it takes as an argument. The loop over a directory runs on fuel, one unit for each entry and one more.
-- Guest: the declarations that the loader shares with the guest. Layout.antt has the rules by which
--   HolyC and C place the members of a class: HolyC leaves no padding, C on x86-64 aligns each
--   member. Boot, Symbols, Memory, Files, Tasks, Task and FixedArea have classes of
--   HolyCRT/KernelA.HH (MiniSystem/Kernel/KernelA.HH has the same bytes), Shared the structures of
--   templeos.h, vsyscall.h and HolyCRT/VKernel.HH, Numbers, Calls, Flags and HashFlags their
--   constants. Classes enumerates the classes, with the assertions in them.
--
-- Texts are lists of bytes. `none` as the result of a run stands for what C leaves undefined, or
-- for fuel that does not suffice. Memory that is freed is not tracked, except for the directory
-- streams, and `malloc` fails only where a result of it is named. The diagnostics that the
-- loader prints apart from the report of bugcheck, the option parser, the function of host.c
-- that wraps getenv, and the assembly around the calls into the guest are not modelled. Of the
-- guest, which is HolyC, the declarations that it shares with the loader, its stub for system
-- calls, its driver for host drives and its files by blocks are modelled; HostFsFilesFind, which
-- recurses through the current directory of the task, and FOpen, which goes through the names of
-- the TempleOS kernel, are not. The rest of the guest is copied from TempleOS and is not
-- modelled. Of bin2elf.py only the thunks are.
mod Prelude
pub mod Symtable
pub mod Datetime
pub mod Platform
pub mod MemoryMap
pub mod Console
pub mod Vfs
pub mod Drives
pub mod Vsyscall
pub mod Host
pub mod Guest
pub mod HostFs
pub mod LoadKernel
pub mod Loader
pub mod Thunk
pub mod Trap
pub mod Main
pub mod Static
