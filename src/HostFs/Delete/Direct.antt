-- ===== src/HostFs/Delete/Direct.antt =====
-- A description of `HostFsFilesDel` without directory streams.
use templeos_loader.Prelude.{
  ℕ, ◌+◌, ◌≡◌, ◌==◌, ◌&&◌, ◌||◌, not, refl, arith, Bool, true, false, if◌then◌else◌, none, some,
  List, [], ◌∷◌, CString,
}
use templeos_loader.Platform.{Platform, FileType}
use templeos_loader.Vfs.Stat.{attr_of}
use templeos_loader.Vfs.Dirs.{entry_path}
use templeos_loader.HostFs.{Kernel, is_dir}
use templeos_loader.HostFs.Delete.{chosen, starts_with_dot}

abbrev pub is_directory : FileType → Bool
is_directory FileType.directory = true
is_directory _ = false

abbrev hidden : CString → Bool
hidden [] = false
hidden (c ∷ s) = c == b'.'

pub is_dir-attr_of : (type : FileType) → is_dir (attr_of type) ≡ is_directory type
is_dir-attr_of FileType.regular = refl
is_dir-attr_of FileType.directory = refl
is_dir-attr_of FileType.symlink = refl
is_dir-attr_of FileType.other = refl

starts_with_dot-hidden : (name : CString) → starts_with_dot name ≡ hidden name
starts_with_dot-hidden [] = refl
starts_with_dot-hidden (c ∷ s) = refl

chosen_bools :
    (dot dot' is is' del_dir match : Bool)
    → dot ≡ dot'
    → is ≡ is'
    → (not dot && (del_dir || not is) && match) ≡ (match && not dot' && not (is' && not del_dir))
chosen_bools dot dot' is is' del_dir match e e' = ground arith

module _ (K : Kernel) (mask : CString) (flags : ℕ) (del_dir : Bool) (P : Platform) (d : ℕ)
    (dir : CString) where
  -- Which files are deleted: those that match and are not hidden, directories only on demand.
  unfoldable pub to_delete : CString → FileType → Bool
  to_delete name type =
      K.files_find_match name mask flags
      && not (hidden name)
      && not (is_directory type && not del_dir)

  pub chosen-attr_of :
      (name : CString) (type : FileType)
      → chosen K mask flags del_dir name (attr_of type) ≡ to_delete name type
  unfolding chosen to_delete
  chosen-attr_of name type =
      chosen_bools (starts_with_dot name) (hidden name) (is_dir (attr_of type)) (is_directory type)
        del_dir (K.files_find_match name mask flags) (starts_with_dot-hidden name)
        (is_dir-attr_of type)

  -- What happens to one entry of the directory: nothing if it does not exist or is not to be
  -- deleted, and else it is deleted, and counted if it is not a directory.
  unfoldable pub delete_one : CString → ℕ → P.Fs → ℕ × P.Fs
  delete_one entry n fs =
      let path = entry_path dir entry in
      elim (P.stat path d fs) [
        | none ↦ (n, fs)
        | some info ↦
            if to_delete (P.basename path).0 info.filetype
            then (if is_directory info.filetype then n else n + 1, (P.delete path d fs).1)
            else (n, fs)
      ]

  -- One entry after the other.
  unfoldable pub delete_all : List CString → ℕ → P.Fs → ℕ × P.Fs
  unfolding delete_one
  delete_all [] n fs = (n, fs)
  delete_all (e ∷ es) n fs = let (n', fs') = delete_one e n fs in delete_all es n' fs'
