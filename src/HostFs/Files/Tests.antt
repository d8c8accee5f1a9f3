-- ===== src/HostFs/Files/Tests.antt =====
-- The driver on a drive that keeps files in memory.
use mathlib.Core.Option.{some-injective}
use templeos_loader.Prelude.{
  ℕ, ◌≡◌, sym, ◌∙◌, refl, arith, ap, false, Option, none, some, List, [], ◌∷◌, ◌++◌, CString, text,
  str_eq, str_eq_refl, if◌then◌else◌, pos, minus_one, length, take, ℤ,
}
use templeos_loader.Platform.{ends_in_slash, Platform, PhysStat, regular}
use templeos_loader.Vsyscall.Defs.{World}
use templeos_loader.HostFs.Toy.{toy_kernel, toy_libc, toy_drive, fresh, fresh-IsValid}
use templeos_loader.HostFs.Answers.{HasNoFormat}
use templeos_loader.HostFs.Files.{FileRead, host_fs_file_read, host_fs_file_write}
use templeos_loader.HostFs.Files.Contents.{IsFileStore, take-length}
use templeos_loader.HostFs.Files.RoundTrip.{
  host_fs_file_read-contents, host_fs_file_write-host_fs_file_read,
}

abbrev Files : Type 0
Files = CString → Option (List ℕ)

abbrev put : Files → CString → List ℕ → Files
put fs path b q = if str_eq path q then some b else fs q

abbrev stat_of : Option (List ℕ) → Option PhysStat
stat_of none = none
stat_of (some b) = some (record { filesize = pos (length b); modtime = pos 0; filetype = regular })

abbrev read_of : Option (List ℕ) → ℕ → Files → ℤ × List ℕ × Files
read_of none n fs = (minus_one, [], fs)
read_of (some b) n fs = (pos (length (take n b)), take n b, fs)

abbrev opened : Option (List ℕ) → CString → Option CString
opened none path = none
opened (some b) path = some path

abbrev P : Platform
P = record {
  Fs = Files;
  File = CString;
  open_read = λ p dv fs. (opened (fs p) p, fs);
  open_write = λ p dv fs. (some p, put fs p []);
  read_bytes = λ f n dv fs. read_of (fs f) n fs;
  write_bytes = λ f b dv fs. (pos (length b), put fs f b);
  close = λ f dv fs. fs;
  mkdir = λ p dv fs. (false, fs);
  delete = λ p dv fs. (false, fs);
  enumerate_files = λ p dv fs. (none, fs);
  stat = λ p dv fs. stat_of (fs p);
  localtime_r = λ t. none;
  basename = λ p. (p, p);
}

written :
    (path : CString) (b : List ℕ) (f : CString) (fs : Files) → path ≡ f → put fs f b path ≡ some b
written path b f fs e = rw (sym e, str_eq_refl path) refl

P-IsFileStore : (d : ℕ) → IsFileStore P d (λ fs path. fs path)
P-IsFileStore d = record {
  stats = λ fs path b h. (
    record { filesize = pos (length b); modtime = pos 0; filetype = regular },
    ap stat_of h,
    refl,
  );
  reads = λ fs path b h. (
    path,
    fs,
    fs,
    ap (λ o. (opened o path, fs)) h,
    ap (λ o. read_of o (length b) fs) h
        ∙ ap (λ (t : List ℕ). (pos (length t), t, fs)) (take-length b),
  );
  writes = λ fs path b f fs1 h whole.
      written path b f fs1 (some-injective _ _ (ap (λ (o : Option CString × Files). o.0) h));
}

abbrev files : Files
files = put (λ path. none) (text "/d/a") (text "xyz")

plain_a : HasNoFormat (text "a")
unfolding HasNoFormat
plain_a = (λ e. omega arith, tt)

host_fs_file_read-contents_example :
    (res : FileRead) × (w' : World P) × (host_fs_file_read toy_kernel P toy_libc toy_drive
        (text "/d")
        (text "a")
        (fresh P files)
      ≡ some (res, w'))
    × (res.buf ≡ some (text "xyz" ++ 0 ∷ []))
    × (res.size ≡ pos 3)
unfolding str_eq ends_in_slash
host_fs_file_read-contents_example =
    host_fs_file_read-contents toy_kernel P toy_libc (λ p plain. refl) toy_drive (λ s t plain. refl)
      refl (omega arith) (λ fs path. fs path) (P-IsFileStore 2) (text "/d") (text "a") (text "xyz")
      (fresh P files) (fresh-IsValid P files) plain_a refl (λ j high. refl) refl (omega arith)

host_fs_file_write-host_fs_file_read_example :
    (w' w'' : World P) × (res : FileRead) × (host_fs_file_write toy_kernel P toy_libc toy_drive
        (text "/d")
        (text "a")
        (text "new")
        (pos 3)
        (fresh P files)
      ≡ some (pos 3, w'))
    × (host_fs_file_read toy_kernel P toy_libc toy_drive (text "/d") (text "a") w'
        ≡ some (res, w''))
    × (res.buf ≡ some (text "new" ++ 0 ∷ []))
    × (res.size ≡ pos 3)
unfolding ends_in_slash
host_fs_file_write-host_fs_file_read_example =
    host_fs_file_write-host_fs_file_read toy_kernel P toy_libc (λ p plain. refl) toy_drive
      (λ s t plain. refl) refl (omega arith) (λ fs path. fs path) (P-IsFileStore 2) (text "/d")
      (text "a") (text "new") (fresh P files) (text "/d/a") (put files (text "/d/a") [])
      (fresh-IsValid P files) plain_a refl refl (λ j high. refl) (omega arith) refl refl
