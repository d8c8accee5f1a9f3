-- ===== src/HostFs/Delete/Tests.antt =====
-- `HostFsFilesDel` on a directory with a file and an entry that is gone.
use templeos_loader.Prelude.{
  ◌≡◌, refl, arith, true, false, Option, none, some, List, [], ◌∷◌, CString, text, str_eq,
  if◌then◌else◌, minus_one,
}
use templeos_loader.Platform.{ends_in_slash, Platform, PhysStat}
use templeos_loader.Platform.Toy.{file}
use templeos_loader.Vsyscall.Defs.{World}
use templeos_loader.Vfs.Stat.Keeps.{ArePlain}
use templeos_loader.HostFs.Toy.{toy_kernel, toy_libc, toy_drive, fresh, fresh-IsValid}
use templeos_loader.HostFs.Delete.{host_fs_files_del}
use templeos_loader.HostFs.Delete.Direct.{to_delete, delete_one, delete_all}
use templeos_loader.HostFs.Delete.Whole.{host_fs_files_del-delete_all}

abbrev stat_of : CString → Option PhysStat
stat_of p = if str_eq p (text "/d/a") then some file else none

-- Its state is the list of the deleted paths.
abbrev P : Platform
P = record {
  Fs = List CString;
  File = Unit;
  open_read = λ p dv fs. (none, fs);
  open_write = λ p dv fs. (none, fs);
  read_bytes = λ f n dv fs. (minus_one, [], fs);
  write_bytes = λ f b dv fs. (minus_one, fs);
  close = λ f dv fs. fs;
  mkdir = λ p dv fs. (false, fs);
  delete = λ p dv fs. (true, p ∷ fs);
  enumerate_files = λ p dv fs. (some (text "gone" ∷ text "a" ∷ []), fs);
  stat = λ p dv fs. stat_of p;
  localtime_r = λ t. none;
  basename = λ p. (p, p);
}

abbrev listed : List CString
listed = text "gone" ∷ text "a" ∷ []

deleted :
    delete_all toy_kernel (text "*") 0 false P 2 (text "/d") listed 0 [] ≡ (1, text "/d/a" ∷ [])
unfolding delete_all delete_one to_delete str_eq
deleted = refl

host_fs_files_del-delete_all_example :
    (w' : World P) × (host_fs_files_del toy_kernel
        (text "*")
        0
        false
        P
        toy_libc
        toy_drive
        3
        (text "/d")
        (fresh P [])
      ≡ some ((delete_all toy_kernel (text "*") 0 false P 2 (text "/d") listed 0 []).0, w'))
    × (w'.fs ≡ (delete_all toy_kernel (text "*") 0 false P 2 (text "/d") listed 0 []).1)
    × (w'.dirs ≡ [])
unfolding ArePlain ends_in_slash
host_fs_files_del-delete_all_example =
    host_fs_files_del-delete_all toy_kernel (text "*") 0 false P toy_libc (λ p plain. refl)
      toy_drive (omega arith) (text "/d") 3 listed [] (fresh P []) (fresh-IsValid P []) refl
      (omega arith) (refl, (refl, tt)) (omega arith) (λ j high. refl) (λ e. ground arith)
      (omega arith)
