-- ===== src/HostFs/Cd.antt =====
-- `HostFsCd` and `HostFsMkDir`.
use mathlib.Core.Option.{some-injective}
use templeos_loader.Prelude.{
  sym, ℕ, suc, ◌%◌, ◌^◌, ◌<◌, ◌≡◌, inl, inr, refl, arith, ap, ◌∙◌, some, [], ◌++◌, length, CString,
  ◌==◌, ◌↔◌, not, true, false, ℤ, pos, minus_one, Bool, Option-cases, if◌then◌else◌,
}
use templeos_loader.Platform.{ends_in_slash, Platform, PhysStat, FileType}
use templeos_loader.Vsyscall.Defs.{accesses, Libc, World}
use templeos_loader.HostFs.{
  Kernel, CDrv, fst_hostfs, fuf_just_dirs, cdir_filename_len, host_fs_file_find, host_fs_cd, missed,
  Found, found,
}
use templeos_loader.HostFs.Answers.{HasNoFormat, join, Excludes, IsReady, Answers}
use templeos_loader.HostFs.Find.{host_fs_file_find-Answers}
use templeos_loader.Vsyscall.Defs.{
  Args, Guest, Reply, code, World, returned, handle, decode, vsyscall_dispatcher,
}
use templeos_loader.Vfs.Files.{vfs_mkdir}
use templeos_loader.Guest.Calls.{mkdir_call}
use templeos_loader.HostFs.{passing, is_zero, vsys_call, host_fs_make_abs_path}
use templeos_loader.HostFs.Files.{host_fs_mk_dir}
use templeos_loader.HostFs.Find.{make_abs_path-join}
use templeos_loader.Vsyscall.Invariant.{IsPlain}
use templeos_loader.HostFs.Calls.{IsOpen, passing-IsOpen, vsys_call-returned, with_fs}

module _ (K : Kernel) (P : Platform) (libc : Libc)
    (keeps : (p : CString) → ends_in_slash p ≡ false → (P.basename p).1 ≡ p) (dv : CDrv)
    (prints : (s t : CString) → HasNoFormat t → K.cat_print s t ≡ s ++ t) where
  abbrev d : ℕ
  d = dv.prt_num % 2 ^ 8

  abbrev answer : Found → Bool
  answer res = elim res [ found de ↦ true | _ ↦ false ]

  -- PhysFS has a directory there.
  abbrev IsDirectory : CString → P.Fs → Type 0
  IsDirectory path fs =
      (info : PhysStat) × (P.stat path d fs ≡ some info) × (info.filetype ≡ FileType.directory)

  cd-found :
      (clus : ℕ) (name : CString) (w : World P) (res : Found) (w' : World P)
      → dv.fs_type ≡ fst_hostfs
      → host_fs_file_find K P libc dv clus name fuf_just_dirs w ≡ some (res, w')
      → host_fs_cd K P libc dv name clus w ≡ some (answer res, w')
  unfolding host_fs_cd
  cd-found clus name w res w' host e =
      let is_host : not (dv.fs_type == fst_hostfs) ≡ false = ground arith in
      rw (host_fs_cd, is_host, e) refl

  same_type :
      {path : CString} {fs : P.Fs} (info : PhysStat)
      → P.stat path d fs ≡ some info
      → IsDirectory path fs
      → info.filetype ≡ FileType.directory
  same_type info exists (other, exists', is) =
      ap (λ (i : PhysStat). i.filetype) (some-injective _ _ (sym exists ∙ exists')) ∙ is

  taken-directory : (type : FileType) → ¬ (Excludes fuf_just_dirs type) → type ≡ FileType.directory
  taken-directory FileType.directory taken = refl
  taken-directory FileType.regular taken = absurd (taken (inl (refl, λ e. ground arith)))
  taken-directory FileType.symlink taken = absurd (taken (inl (refl, λ e. ground arith)))
  taken-directory FileType.other taken = absurd (taken (inl (refl, λ e. ground arith)))

  answer_iff :
      (path : CString) (w w' : World P) (res : Found)
      → Answers P K w' d path fuf_just_dirs res (P.stat path d w.fs)
      → (answer res ≡ true) ↔ IsDirectory path w.fs
  answer_iff path w w' res answers = elim (Option-cases (P.stat path d w.fs)) [
    | inl missing ↦
        let same : res ≡ missed = rw missing at answers in
        (λ h. absurd (ground (arith, same)), λ x. absurd (ground (arith, missing, x.1)))
    | inr (info, exists) ↦ by_kind info exists (rw exists at answers)
  ]
    where
      by_kind :
          (info : PhysStat)
          → P.stat path d w.fs ≡ some info
          → Answers P K w' d path fuf_just_dirs res (some info)
          → (answer res ≡ true) ↔ IsDirectory path w.fs
      by_kind info exists (inl (inl (dirs, ne), m)) =
          (λ h. absurd (ground (arith, m)), λ x. absurd (ne (same_type info exists x)))
      by_kind info exists (inl (inr (files, is), m)) = absurd (ground (arith, files))
      by_kind info exists (inr (taken, de, is_found, name, attr, size, denotes)) =
          (λ h. (info, exists, taken-directory info.filetype taken), λ x. ap answer is_found)

  -- Under the conditions of a find for directories, `HostFsCd` returns TRUE exactly if PhysFS has a
  -- directory at the current directory's path, a slash and the name.
  pub host_fs_cd_iff :
      (clus : ℕ) (name dname dir : CString) (w : World P) (k : ℕ)
      → HasNoFormat name
      → K.cfile_name_to name ≡ some dname
      → dv.fs_type ≡ fst_hostfs
      → length (P.basename (join dir name)).0 < cdir_filename_len
      → ends_in_slash (join dir name) ≡ false
      → IsReady P w d clus dir (suc k)
      → (b : Bool) × (w' : World P) × (host_fs_cd K P libc dv name clus w ≡ some (b, w'))
        × ((b ≡ true) ↔ IsDirectory (join dir name) w.fs)
  host_fs_cd_iff clus name dname dir w k unformatted valid host short plain r =
      let (res, w', finds, runs, same_fs, room, answers) =
        host_fs_file_find-Answers K P libc keeps dv clus name dname dir fuf_just_dirs w k prints
          unformatted valid host refl short plain r in
      (
        answer res,
        w',
        cd-found clus name w res w' host finds,
        answer_iff (join dir name) w w' res answers,
      )

  mkdir-returned :
      (guest : Guest) (a : Args) (w : World P) (rc : ℤ) (fs : P.Fs)
      → IsOpen guest
      → vfs_mkdir P (guest.text_at a.arg1) (a.arg2 % 2 ^ 8) w.fs ≡ (rc, fs)
      → vsyscall_dispatcher P libc guest (pos 16) a w
        ≡ some (returned (code rc) (with_fs P libc w fs))
  unfolding vsyscall_dispatcher handle decode accesses
  mkdir-returned guest a w rc fs mem e =
      rw
        (
          vsyscall_dispatcher,
          handle,
          decode,
          ap (λ (r : ℤ × P.Fs). r.0) e,
          ap (λ (r : ℤ × P.Fs). r.1) e,
          accesses,
          mem.0 a.arg1,
        )
        refl

  mk_dir-called :
      (cur_dir name path : CString) (r : Reply) (w w' : World P)
      → host_fs_make_abs_path K cur_dir name ≡ path
      → vsys_call P libc mkdir_call K.path_at dv.prt_num 0 0 (passing path [] K.unset) w
        ≡ some (r, w')
      → host_fs_mk_dir K P libc dv cur_dir name w ≡ some (is_zero r.rc, w')
  unfolding host_fs_mk_dir
  mk_dir-called cur_dir name path r w w' joined e = rw (host_fs_mk_dir, joined, e) refl

  mkdir_zero : (done : Bool) → is_zero (if done then pos 0 else minus_one) ≡ done
  mkdir_zero true = refl
  mkdir_zero false = refl

  vfs_mkdir_lem :
      (path : CString) (fs : P.Fs)
      → vfs_mkdir P path d fs
        ≡ (if (P.mkdir path d fs).0 then pos 0 else minus_one, (P.mkdir path d fs).1)
  unfolding vfs_mkdir
  vfs_mkdir_lem path fs = refl

  -- `HostFsMkDir` is PhysFS's `mkdir` of the current directory's path, a slash and the name.
  pub host_fs_mk_dir-mkdir :
      (cur_dir name : CString) (w : World P)
      → HasNoFormat name
      → host_fs_mk_dir K P libc dv cur_dir name w
        ≡ some (
          (P.mkdir (join cur_dir name) d w.fs).0,
          with_fs P libc w (P.mkdir (join cur_dir name) d w.fs).1,
        )
  unfolding decode IsPlain
  host_fs_mk_dir-mkdir cur_dir name w unformatted =
      let path = make_abs_path-join K P libc keeps dv name cur_dir prints unformatted in
      let guest = passing (join cur_dir name) [] K.unset in
      let (e, runs) = vsys_call-returned P libc mkdir_call K.path_at dv.prt_num 0 0 guest w _ _ tt (
        mkdir-returned guest (record { arg1 = K.path_at; arg2 = dv.prt_num; arg3 = 0; arg4 = 0 }) w
          _ _ (passing-IsOpen (join cur_dir name) [] K.unset)
          (vfs_mkdir_lem (join cur_dir name) w.fs)) in
      mk_dir-called cur_dir name (join cur_dir name) _ w _ path e
      ∙ ap (λ b. some (b, with_fs P libc w (P.mkdir (join cur_dir name) d w.fs).1))
          (mkdir_zero (P.mkdir (join cur_dir name) d w.fs).0)
