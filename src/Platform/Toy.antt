-- ===== src/Platform/Toy.antt =====
-- A platform of two files and a directory, for the tests: nothing can be opened, `stat` knows
-- three paths, and `basename` cuts a final slash in place if it is told to.
use templeos_loader.Prelude.{
  Bool, false, Option, none, some, [], ◌∷◌, CString, text, str_eq, if◌then◌else◌, pos, minus_one,
}
use templeos_loader.Platform.{Platform, PhysStat, regular, directory}

abbrev pub file : PhysStat
file = record { filesize = pos 3; modtime = pos 0; filetype = regular }

abbrev pub folder : PhysStat
folder = record { filesize = pos 0; modtime = pos 0; filetype = directory }

abbrev toy_stat : CString → Option PhysStat
toy_stat p =
    if str_eq p (text "/d/a")
    then some file
    else if str_eq p (text "/d")
    then some folder
    else if str_eq p (text "/d/")
    then some folder
    else none

abbrev pub toy : Bool → Platform
toy cuts = record {
  Fs = Unit;
  File = Unit;
  open_read = λ p dv fs. (none, fs);
  open_write = λ p dv fs. (none, fs);
  read_bytes = λ f n dv fs. (minus_one, [], fs);
  write_bytes = λ f b dv fs. (minus_one, fs);
  close = λ f dv fs. fs;
  mkdir = λ p dv fs. (false, fs);
  delete = λ p dv fs. (false, fs);
  enumerate_files = λ p dv fs. (some (text "gone" ∷ text "a" ∷ []), fs);
  stat = λ p dv fs. toy_stat p;
  localtime_r = λ t. none;
  basename = λ p. if cuts then (text "d", text "/d") else (p, p);
}
