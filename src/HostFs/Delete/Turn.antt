-- ===== src/HostFs/Delete/Turn.antt =====
-- One turn of the loop of `HostFsFilesDel`.
use templeos_loader.Prelude.{
  ==_refl, ℕ, zero, suc, ◌+◌, ◌%◌, ◌^◌, ◌<◌, ◌≡◌, inl, inr, refl, arith, ap, ◌∙◌, sym, subst, Bool,
  true, false, if◌then◌else◌, none, some, List, [], ◌∷◌, drop, CString, ℤ, pos, minus_one,
  Bool-cases,
}
use templeos_loader.Platform.{ends_in_slash, Platform, PhysStat}
use templeos_loader.Vfs.Clusters.{num_drives, Assignments}
use templeos_loader.Vfs.Stat.{CHostFsStat, attr_of}
use templeos_loader.Vfs.Stat.Agree.{report}
use templeos_loader.Vfs.Files.{vfs_unlink}
use templeos_loader.Vfs.Dirs.{VfsDir, entry_path, vfs_readdir}
use templeos_loader.Vfs.Dirs.Listing.{first_live, is_live}
use templeos_loader.Vsyscall.Defs.{decode, find_dir, Reply, Libc, World}
use templeos_loader.Vsyscall.Runs.{Runs, here}
use templeos_loader.Guest.Calls.{readdir_call, unlink_call}
use templeos_loader.HostFs.{Kernel, CDrv, passing, is_dir, vsys_call}
use templeos_loader.Vsyscall.Invariant.{IsPlain}
use templeos_loader.Vfs.Stat.Keeps.{ArePlain}
use templeos_loader.HostFs.Calls.{passing-IsOpen, vsys_call-returned, with_fs}
use templeos_loader.HostFs.Delete.{chosen, delete_entry, delete_loop}
use templeos_loader.HostFs.Delete.Calls.{with_stream, readdir-returned, unlink-returned}
use templeos_loader.HostFs.Delete.Direct.{is_dir-attr_of, chosen-attr_of, delete_one, delete_all}

drop-suc : (n : ℕ) (xs es : List CString) (e : CString) → drop n xs ≡ e ∷ es → drop (suc n) xs ≡ es
drop-suc zero [] es e h = absurd (ground arith)
drop-suc zero (x ∷ xs) es e h = ap (λ (l : List CString). drop 1 l) h
drop-suc (suc n) [] es e h = absurd (ground arith)
drop-suc (suc n) (x ∷ xs) es e h = drop-suc n xs es e h

pub drop-next :
    (n : ℕ) (xs es : List CString) (e : CString) → drop n xs ≡ e ∷ es → drop (n + 1) xs ≡ es
drop-next n xs es e h =
    let next : suc n ≡ n + 1 = omega arith in
    subst (λ k. drop k xs ≡ es) next (drop-suc n xs es e h)

module _ (K : Kernel) (mask : CString) (flags : ℕ) (del_dir : Bool) (P : Platform) (libc : Libc)
    (keeps : (p : CString) → ends_in_slash p ≡ false → (P.basename p).1 ≡ p) (dv : CDrv)
    (drive : dv.prt_num % 2 ^ 8 < num_drives) (dir : CString) where
  abbrev d : ℕ
  d = dv.prt_num % 2 ^ 8

  abbrev stream : List CString → ℕ → VfsDir
  stream list at = record { path = dir; list = list; pos = at }

  abbrev one : CString → ℕ → P.Fs → ℕ × P.Fs
  one = delete_one K mask flags del_dir P d dir

  abbrev all_of : List CString → ℕ → P.Fs → ℕ × P.Fs
  all_of = delete_all K mask flags del_dir P d dir

  pub one-missing :
      (e : CString) (n : ℕ) (fs : P.Fs)
      → P.stat (entry_path dir e) d fs ≡ none
      → one e n fs ≡ (n, fs)
  unfolding delete_one
  one-missing e n fs missing = rw (delete_one, missing) refl

  module _ (e : CString) (n : ℕ) (info : PhysStat) (fs : P.Fs)
      (exists : P.stat (entry_path dir e) d fs ≡ some info) where
    abbrev name : CString
    name = (P.basename (entry_path dir e)).0

    abbrev attr : ℕ
    attr = attr_of info.filetype

    one-chosen :
        chosen K mask flags del_dir name attr ≡ true
        → one e n fs ≡ (if is_dir attr then n else n + 1, (P.delete (entry_path dir e) d fs).1)
    unfolding delete_one
    one-chosen picked =
        rw
          (
            delete_one,
            exists,
            sym (chosen-attr_of K mask flags del_dir P d dir name info.filetype) ∙ picked,
            is_dir-attr_of info.filetype,
          )
          refl

    one-left : chosen K mask flags del_dir name attr ≡ false → one e n fs ≡ (n, fs)
    unfolding delete_one
    one-left left =
        rw
          (
            delete_one,
            exists,
            sym (chosen-attr_of K mask flags del_dir P d dir name info.filetype) ∙ left,
          )
          refl

  module _ (st : CHostFsStat) (n : ℕ) (w : World P) where
    entry-chosen :
        (r : Reply) (w' : World P)
        → chosen K mask flags del_dir st.name st.attr ≡ true
        → vsys_call P libc unlink_call K.path_at dv.prt_num 0 0 (passing st.abs_path [] st) w
          ≡ some (r, w')
        → delete_entry K mask flags del_dir P libc dv st n w
          ≡ some (if is_dir st.attr then n else n + 1, w')
    unfolding delete_entry
    entry-chosen r w' picked e = rw (delete_entry, picked, e) refl

    entry-left :
        chosen K mask flags del_dir st.name st.attr ≡ false
        → delete_entry K mask flags del_dir P libc dv st n w ≡ some (n, w)
    unfolding delete_entry
    entry-left left = rw (delete_entry, left) refl

  vfs_unlink_fs : (path : CString) (fs : P.Fs) → (vfs_unlink P path d fs).1 ≡ (P.delete path d fs).1
  unfolding vfs_unlink
  vfs_unlink_fs path fs = refl

  -- The body of the loop on the entry that was read.
  pub delete_entry-one :
      (e : CString) (n i : ℕ) (info : PhysStat) (w : World P)
      → P.stat (entry_path dir e) d w.fs ≡ some info
      → (w' : World P) × (delete_entry K mask flags del_dir P libc dv
            (report P (entry_path dir e) (P.basename (entry_path dir e)).0 info i)
            n
            w
          ≡ some ((one e n w.fs).0, w'))
        × Runs P w w'
        × (w'.fs ≡ (one e n w.fs).1)
        × (w'.dirs ≡ w.dirs)
        × (w'.assignments ≡ w.assignments)
  unfolding decode IsPlain
  delete_entry-one e n i info w exists =
      let st = report P (entry_path dir e) (P.basename (entry_path dir e)).0 info i in
      let (gone, runs) =
        vsys_call-returned P libc unlink_call K.path_at dv.prt_num 0 0 (passing st.abs_path [] st) w
          _ _ tt
          (unlink-returned P libc (passing st.abs_path [] st)
            (record { arg1 = K.path_at; arg2 = dv.prt_num; arg3 = 0; arg4 = 0 }) w _ _
            (passing-IsOpen st.abs_path [] st) refl) in
      elim (Bool-cases (chosen K mask flags del_dir st.name st.attr)) [
        | inl picked ↦
            let same = one-chosen e n info w.fs exists picked in
            (
              _,
              entry-chosen st n w _ _ picked gone
                  ∙ ap
                      (λ (x : ℕ × P.Fs).
                        some (x.0, with_fs P libc w (vfs_unlink P (entry_path dir e) d w.fs).1))
                      (sym same),
              runs,
              vfs_unlink_fs (entry_path dir e) w.fs ∙ ap (λ (x : ℕ × P.Fs). x.1) (sym same),
              refl,
              refl,
            )
        | inr left ↦
            let same = one-left e n info w.fs exists left in
            (
              w,
              entry-left st n w left ∙ ap (λ (x : ℕ × P.Fs). some (x.0, w)) (sym same),
              here,
              ap (λ (x : ℕ × P.Fs). x.1) (sym same),
              refl,
              refl,
            )
      ]

  pub readdir-call :
      (p : ℕ) (st : CHostFsStat) (w : World P) (s s' : VfsDir) (ds : List (ℕ × VfsDir)) (rc : ℤ)
      (st' : CHostFsStat) (all : Assignments)
      → ArePlain s.path s.list
      → w.dirs ≡ (p, s) ∷ ds
      → vfs_readdir P s st d w.fs w.assignments ≡ some (rc, st', s', all)
      → (vsys_call P libc readdir_call p K.stat_at dv.prt_num 0 (passing [] [] st) w
          ≡ some (
            record { rc = rc; stat_out = some (K.stat_at, st'); buf_out = none },
            with_stream P libc w ((p, s') ∷ ds) all,
          ))
        × Runs P w (with_stream P libc w ((p, s') ∷ ds) all)
  unfolding decode IsPlain find_dir
  readdir-call p st w s s' ds rc st' all plain streams e =
      vsys_call-returned P libc readdir_call p K.stat_at dv.prt_num 0 (passing [] [] st) w _ _
        (rw (streams, ==_refl p) plain)
        (readdir-returned P libc (passing [] [] st)
          (record { arg1 = p; arg2 = K.stat_at; arg3 = dv.prt_num; arg4 = 0 }) w s s' ds rc st' all
          (passing-IsOpen [] [] st) streams e)

  pub loop-ended :
      (fuel p n : ℕ) (st st' : CHostFsStat) (w w' : World P)
      → vsys_call P libc readdir_call p K.stat_at dv.prt_num 0 (passing [] [] st) w
        ≡ some (record { rc = minus_one; stat_out = some (K.stat_at, st'); buf_out = none }, w')
      → delete_loop K mask flags del_dir P libc dv (suc fuel) p st n w ≡ some (n, w')
  unfolding delete_loop
  loop-ended fuel p n st st' w w' e = rw (delete_loop, e) refl

  pub loop-next :
      (fuel p n n' : ℕ) (st st' : CHostFsStat) (w w' w'' : World P)
      → vsys_call P libc readdir_call p K.stat_at dv.prt_num 0 (passing [] [] st) w
        ≡ some (record { rc = pos 0; stat_out = some (K.stat_at, st'); buf_out = none }, w')
      → delete_entry K mask flags del_dir P libc dv st' n w' ≡ some (n', w'')
      → delete_loop K mask flags del_dir P libc dv (suc fuel) p st n w
        ≡ delete_loop K mask flags del_dir P libc dv fuel p st' n' w''
  unfolding delete_loop
  loop-next fuel p n n' st st' w w' w'' e e' = rw (delete_loop, e, e') refl

  abbrev live : P.Fs → CString → Bool
  live fs = is_live P dir d fs

  pub first_live-missing :
      (at : ℕ) (e : CString) (es : List CString) (fs : P.Fs)
      → P.stat (entry_path dir e) d fs ≡ none
      → first_live (live fs) at (e ∷ es) ≡ first_live (live fs) (at + 1) es
  unfolding first_live
  first_live-missing at e es fs missing = rw (first_live, missing) refl

  pub first_live-exists :
      (at : ℕ) (e : CString) (es : List CString) (fs : P.Fs) (info : PhysStat)
      → P.stat (entry_path dir e) d fs ≡ some info
      → first_live (live fs) at (e ∷ es) ≡ (at + 1, some e)
  unfolding first_live
  first_live-exists at e es fs info exists = rw (first_live, exists) refl

  pub all_of-cons :
      (e : CString) (es : List CString) (n : ℕ) (fs : P.Fs)
      → all_of (e ∷ es) n fs ≡ all_of es (one e n fs).0 (one e n fs).1
  unfolding delete_all
  all_of-cons e es n fs = refl
