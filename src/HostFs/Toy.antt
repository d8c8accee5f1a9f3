-- ===== src/HostFs/Toy.antt =====
-- A kernel, a C library, a drive and a state to run the driver on in the tests.
use templeos_loader.Prelude.{refl, arith, true, none, some, [], ◌∷◌, ◌++◌, text, pos}
use templeos_loader.Datetime.{zeroed}
use templeos_loader.Platform.{Platform}
use templeos_loader.Console.{fmt_start}
use templeos_loader.Vsyscall.Defs.{Libc, World}
use templeos_loader.Vsyscall.Invariant.{IsValid}
use templeos_loader.HostFs.{Kernel, CDrv, fst_hostfs}

-- A kernel that takes every name for valid, and cuts `/d` into its pieces.
abbrev pub toy_kernel : Kernel
toy_kernel = record {
  file_attr = λ name attr. attr;
  files_find_match = λ name mask flags. true;
  struct2_date = λ date. 0;
  cat_print = λ s t. s ++ t;
  cfile_name_to = λ name. some name;
  pieces = λ path. [] ∷ text "d" ∷ [];
  path_at = 0x1000;
  stat_at = 0x2000;
  buf_at = 0x3000;
  unset = record { attr = 0; clus = 0; size = pos 0; abs_path = []; name = []; datetime = zeroed };
}

abbrev pub toy_libc : Libc
toy_libc = record {
  malloc = λ dirs. 4096;
  read = λ p n. (pos 0, []);
  no_return = pos 7;
  arch_prctl = λ p. true;
}

abbrev pub toy_drive : CDrv
toy_drive = record { fs_type = fst_hostfs; prt_num = 2; root_clus = 0 }

abbrev pub fresh : (P : Platform) → P.Fs → World P
fresh P fs = record {
  fs = fs;
  assignments = λ dv i. none;
  syms = [];
  fmt = fmt_start;
  written = [];
  debugged = [];
  dirs = [];
  host_fs = 11;
  emulated_fs = 0;
  fs_base = 0;
  gs_base = 0;
}

pub fresh-IsValid : (P : Platform) (fs : P.Fs) → IsValid P (fresh P fs)
fresh-IsValid P fs = record {
  sorted = tt;
  assigned = λ dv drive. (
    0,
    record {
      bounded = omega arith;
      used = λ i h. absurd (omega arith);
      free = λ i h. refl;
      distinct = λ i j a b e e' p. absurd (ground arith);
    },
  );
  console = (none, (refl, refl));
}
