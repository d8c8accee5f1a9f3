-- ===== src/Vsyscall/Tests.antt =====
-- The dispatcher at concrete calls.
use templeos_loader.Prelude.{
  ℕ, ◌≡◌, refl, arith, true, false, none, some, [], ◌∷◌, text, str_eq, pos, minus_one, ltb,
}
use templeos_loader.Datetime.{zeroed}
use templeos_loader.Platform.{Platform, ends_in_slash}
use templeos_loader.Platform.Toy.{toy, folder}
use templeos_loader.Vfs.Clusters.{update, scan, assign, get_node_by_path}
use templeos_loader.Vfs.Stat.{CHostFsStat, set_path, fill_stat, vfs_stat}
use templeos_loader.Vfs.Stat.Agree.{report}
use templeos_loader.Vfs.Dirs.{VfsDir}
use templeos_loader.Vsyscall.Runs.{Runs, here}
use templeos_loader.Vsyscall.Clusters.{statclus-stat}
use templeos_loader.Console
use templeos_loader.Console.{fmt_start}
use templeos_loader.Vsyscall.Defs.{
  Syscall, decode, Args, Guest, Reply, code, Libc, World, returned, exited, vsyscall_dispatcher,
}
use templeos_loader.Vsyscall.Frame.{fs_after, vsyscall_dispatcher_fs}
use templeos_loader.Vsyscall.Invariant.{IsValid, IsPlain, vsyscall_dispatcher-IsValid}

abbrev P : Platform
P = toy false

abbrev libc : Libc
libc = record {
  malloc = λ dirs. 4096;
  read = λ p n. (pos 0, []);
  no_return = pos 7;
  arch_prctl = λ p. ltb p 1000;
}

abbrev guest : Guest
guest = record {
  text_at = λ p. text "/d";
  bytes_at = λ p n. [];
  text_ok = λ p. true;
  bytes_ok = λ p n. true;
  stat_at =
      λ p. record { attr = 0; clus = 0; size = pos 0; abs_path = []; name = []; datetime = zeroed };
}

abbrev start : World P
start = record {
  fs = tt;
  assignments = λ dv i. none;
  syms = [];
  fmt = fmt_start;
  written = [];
  debugged = [];
  dirs = [];
  host_fs = 11;
  emulated_fs = 0;
  fs_base = 0;
  gs_base = 0;
}

abbrev args : ℕ → Args
args n = record { arg1 = n; arg2 = 0; arg3 = 0; arg4 = 0 }

numbered :
    (decode (pos 0) ≡ Syscall.debug)
    × (decode (pos 5) ≡ Syscall.putchar)
    × (decode (pos 17) ≡ Syscall.unlink)
    × (decode (pos 18) ≡ Syscall.bad)
    × (decode minus_one ≡ Syscall.bad)
unfolding decode
numbered = (refl, refl, refl, refl, refl)

-- VSYSCALL_SETFS
abbrev set_fs : World P
set_fs = record start { emulated_fs = 5; fs_base = 5 }

sets_fs :
    vsyscall_dispatcher P libc guest (pos 2) (args 5) start ≡ some (returned (code (pos 0)) set_fs)
unfolding vsyscall_dispatcher
sets_fs = refl

unknown :
    vsyscall_dispatcher P libc guest (pos 18) (args 5) start
    ≡ some (returned (code minus_one) start)
unfolding vsyscall_dispatcher
unknown = refl

exits :
    vsyscall_dispatcher P libc guest (pos 12) (args (0xffff_ffff)) start
    ≡ some (exited minus_one (record start { fs_base = 11 }))
unfolding vsyscall_dispatcher
exits = refl

vsyscall_dispatcher_fs_example :
    (set_fs.fs_base ≡ 5)
    × (set_fs.emulated_fs ≡ fs_after (decode (pos 2)) (args 5) start.emulated_fs)
    × (set_fs.host_fs ≡ start.host_fs)
vsyscall_dispatcher_fs_example =
    vsyscall_dispatcher_fs P libc guest (pos 2) (args 5) start (code (pos 0)) set_fs sets_fs

start-IsValid : IsValid P start
start-IsValid = record {
  sorted = tt;
  assigned = λ dv drive. (
    0,
    record {
      bounded = omega arith;
      used = λ i h. absurd (omega arith);
      free = λ i h. refl;
      distinct = λ i j a b e e' p. absurd (ground arith);
    },
  );
  console = (none, (refl, refl));
}

-- VSYSCALL_PUTCHAR of `$`
abbrev in_command : World P
in_command = record start { fmt = record fmt_start { fmt_mode = true } }

puts :
    vsyscall_dispatcher P libc guest (pos 5) (args b'$') start
    ≡ some (returned (code (pos 0)) in_command)
unfolding vsyscall_dispatcher Console.putchar
puts = refl

vsyscall_dispatcher-IsValid_example : IsValid P in_command
unfolding IsPlain decode
vsyscall_dispatcher-IsValid_example =
    vsyscall_dispatcher-IsValid P libc guest (λ p plain. refl) (pos 5) (args b'$') start
      (returned (code (pos 0)) in_command) start-IsValid tt puts

-- VSYSCALL_STAT of a path, then VSYSCALL_SETFS, then VSYSCALL_STATCLUS of the cluster.
abbrev reported : CHostFsStat
reported = report P (text "/d") (text "/d") folder 0

abbrev assigned : World P
assigned = record start {
  assignments =
      set_path
        (update start.assignments 0
          (update (start.assignments 0) 0 (some (record { path = text "/d"; clus = 1 }))))
        0 0 (text "/d");
}

abbrev stat_reply : Reply
stat_reply = record { rc = pos 0; stat_out = some (0, reported); buf_out = none }

stats :
    vsyscall_dispatcher P libc guest (pos 6) (args 77) start ≡ some (returned stat_reply assigned)
unfolding vsyscall_dispatcher vfs_stat get_node_by_path assign scan fill_stat str_eq
stats = refl

abbrev later : World P
later = record assigned { emulated_fs = 5; fs_base = 5 }

sets_fs_later :
    vsyscall_dispatcher P libc guest (pos 2) (args 5) assigned
    ≡ some (returned (code (pos 0)) later)
unfolding vsyscall_dispatcher
sets_fs_later = refl

statclus-stat_example :
    (st' : CHostFsStat) × (st'.abs_path ≡ text "/d")
    × (st'.clus ≡ reported.clus)
    × (st'.size ≡ folder.filesize)
    × (vsyscall_dispatcher P libc guest (pos 7) (args 1) later
        ≡ some (
            returned
              (record { rc = pos 0; stat_out = some (0, st'); buf_out = none })
              (record later { fs_base = 5 })))
unfolding str_eq IsPlain decode ends_in_slash
statclus-stat_example =
    statclus-stat P (λ p plain. refl) libc libc guest guest (args 77) (args 1) start assigned later
      stat_reply reported folder start-IsValid refl refl stats refl refl
      (Runs.call libc guest (pos 2) (args 5) (code (pos 0)) tt sets_fs_later here) refl refl refl

-- VSYSCALL_READDIR of a stream that has two entries left.
abbrev listing : VfsDir
listing = record { path = text "/d"; list = text "gone" ∷ text "a" ∷ []; pos = 0 }

abbrev opened : World P
opened = record start { dirs = (77, listing) ∷ [] }
