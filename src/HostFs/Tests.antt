-- ===== src/HostFs/Tests.antt =====
-- The driver on a drive with a directory of one file.
use templeos_loader.Prelude.{
  ℕ, ◌<◌, ◌≡◌, refl, arith, false, Option, none, some, [], ◌∷◌, inl, CString, text, str_eq,
  if◌then◌else◌, length,
}
use templeos_loader.Platform.{ends_in_slash, Platform, PhysStat}
use templeos_loader.Platform.Toy.{toy, file, folder}
use templeos_loader.Vfs.Stat.Room.{HasRoom}
use templeos_loader.Vsyscall.Defs.{World}
use templeos_loader.Vsyscall.Runs.{Runs}
use templeos_loader.HostFs.{Kernel, Found, host_fs_file_find, name2_dir_clus}
use templeos_loader.HostFs.Toy.{toy_kernel, toy_libc, toy_drive, fresh, fresh-IsValid}
use templeos_loader.HostFs.Answers.{HasNoFormat, Denotes, Answers}
use templeos_loader.HostFs.Find.{host_fs_file_find-Answers}
use templeos_loader.HostFs.Walk.{below, AreDirs, name2_dir_clus-Denotes}

abbrev there : CString → Option PhysStat
there p =
    if str_eq p (text "//d/a")
    then some file
    else if str_eq p (text "//d")
    then some folder
    else none

-- `basename` of the two.
abbrev last_part : CString → CString
last_part p = if str_eq p (text "//d/a") then text "a" else text "d"

abbrev P : Platform
P = record (toy false) { stat = λ p dv fs. there p; basename = λ p. (last_part p, p) }

abbrev K : Kernel
K = toy_kernel

abbrev start : World P
start = fresh P tt

plain_path : HasNoFormat (text "d")
unfolding HasNoFormat
plain_path = (λ e. omega arith, tt)

short_name : length (P.basename (text "//d")).0 < 38
unfolding str_eq
short_name = omega arith

host_fs_file_find-Answers_example :
    (res : Found) × (w' : World P) × (host_fs_file_find K P toy_libc toy_drive 0
        (text "d")
        0x800
        start
      ≡ some (res, w'))
    × Runs P start w'
    × (w'.fs ≡ start.fs)
    × HasRoom 9 (w'.assignments 2)
    × Answers P K w' 2 (text "//d") 0x800 res (P.stat (text "//d") 2 tt)
unfolding ends_in_slash
host_fs_file_find-Answers_example =
    host_fs_file_find-Answers K P toy_libc (λ p plain. refl) toy_drive 0 (text "d") (text "d")
      (text "/") 0x800 start 9 (λ s t plain. refl) plain_path refl refl refl short_name refl
      (record {
        valid = fresh-IsValid P tt;
        drive = omega arith;
        denotes = inl (refl, refl);
        plain = inl refl;
        there = inl refl;
        small = omega arith;
        room = λ j high. refl;
      })

name2_dir_clus-Denotes_example :
    (c : ℕ) × (w' : World P) × (name2_dir_clus K P toy_libc toy_drive (text "/d") start
      ≡ some (c, w'))
    × (w'.fs ≡ start.fs)
    × ((w'' : World P) → Runs P w' w'' → Denotes P w'' 2 c (below (text "/") ([] ∷ text "d" ∷ [])))
unfolding AreDirs str_eq ends_in_slash
name2_dir_clus-Denotes_example =
    name2_dir_clus-Denotes K P toy_libc (λ p plain. refl) toy_drive (λ s t plain. refl) refl
      (text "/d") start refl (fresh-IsValid P tt) (omega arith) (omega arith) (λ j high. refl)
      (plain_path, (text "d", refl), omega arith, refl, (folder, refl, refl), tt)
