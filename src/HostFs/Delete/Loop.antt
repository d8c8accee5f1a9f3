-- ===== src/HostFs/Delete/Loop.antt =====
-- The loop of `HostFsFilesDel` against its description without directory streams.
use templeos_loader.Prelude.{
  subst, false, ℕ, zero, suc, ◌+◌, ◌%◌, ◌^◌, ◌≤◌, ◌<◌, ◌≡◌, inl, inr, refl, arith, ap, ◌∙◌, sym,
  Bool, Option, none, some, List, [], ◌∷◌, length, drop, CString, pos, minus_one, Option-cases,
}
use templeos_loader.Platform.{ends_in_slash, Platform, PhysStat}
use templeos_loader.Vfs.Clusters.{max_assignments, num_drives, Assignments}
use templeos_loader.Vfs.Stat.{CHostFsStat, vfs_stat}
use templeos_loader.Vfs.Stat.Agree.{report}
use templeos_loader.Vfs.Stat.Room.{HasRoom}
use templeos_loader.Vfs.Dirs.{VfsDir, entry_path, vfs_readdir}
use templeos_loader.Vfs.Dirs.Listing.{first_live, is_live, expected, vfs_readdir-expected}
use templeos_loader.Vsyscall.Defs.{Libc, World}
use templeos_loader.Vsyscall.Invariant.{IsValid}
use templeos_loader.Vsyscall.Runs.{Runs, here, Runs-IsValid, Runs-trans}
use templeos_loader.HostFs.{Kernel, CDrv}
use templeos_loader.Vfs.Stat.Keeps.{ArePlain, ArePlain-drop}
use templeos_loader.HostFs.Calls.{vfs_stat-assigned}
use templeos_loader.HostFs.Delete.{delete_loop}
use templeos_loader.HostFs.Delete.Calls.{with_stream}
use templeos_loader.HostFs.Delete.Direct.{delete_one, delete_all}
use templeos_loader.HostFs.Delete.Turn.{
  one-missing, delete_entry-one, readdir-call, loop-ended, loop-next, first_live-missing,
  first_live-exists, all_of-cons, drop-next,
}

module _ (K : Kernel) (mask : CString) (flags : ℕ) (del_dir : Bool) (P : Platform) (libc : Libc)
    (keeps : (p : CString) → ends_in_slash p ≡ false → (P.basename p).1 ≡ p) (dv : CDrv)
    (drive : dv.prt_num % 2 ^ 8 < num_drives) (dir : CString) where
  abbrev d : ℕ
  d = dv.prt_num % 2 ^ 8

  abbrev stream : List CString → ℕ → VfsDir
  stream list at = record { path = dir; list = list; pos = at }

  abbrev all_of : List CString → ℕ → P.Fs → ℕ × P.Fs
  all_of = delete_all K mask flags del_dir P d dir

  abbrev live : P.Fs → CString → Bool
  live fs = is_live P dir d fs

  -- What the loop leaves, from the entries `rest` on.
  pub record Looped (fuel p : ℕ) (st : CHostFsStat) (n : ℕ) (w : World P) (list rest : List CString)
      (ds : List (ℕ × VfsDir)) : Type 0 where
    pub w' : World P
    pub end : ℕ
    pub loops :
        delete_loop K mask flags del_dir P libc dv fuel p st n w ≡ some ((all_of rest n w.fs).0, w')
    pub runs : Runs P w w'
    pub fs : w'.fs ≡ (all_of rest n w.fs).1
    pub dirs : w'.dirs ≡ (p, stream list end) ∷ ds

  restated :
      (fuel fuel' p n n' : ℕ) (st st' : CHostFsStat) (w w2 : World P)
      (list rest rest' : List CString) (ds : List (ℕ × VfsDir))
      → Looped fuel' p st' n' w2 list rest' ds
      → delete_loop K mask flags del_dir P libc dv fuel p st n w
        ≡ delete_loop K mask flags del_dir P libc dv fuel' p st' n' w2
      → Runs P w w2
      → all_of rest n w.fs ≡ all_of rest' n' w2.fs
      → Looped fuel p st n w list rest ds
  restated fuel fuel' p n n' st st' w w2 list rest rest' ds l turn runs same = record {
    w' = l.w';
    end = l.end;
    loops = turn ∙ l.loops ∙ ap (λ (x : ℕ × P.Fs). some (x.0, l.w')) (sym same);
    runs = Runs-trans P runs l.runs;
    fs = l.fs ∙ ap (λ (x : ℕ × P.Fs). x.1) (sym same);
    dirs = l.dirs;
  }

  -- `vfs_readdir` where the entries from `at` on count.
  readdir-from :
      (rest list : List CString) (at at0 : ℕ) (st : CHostFsStat) (w : World P)
      (found : ℕ × Option CString)
      → first_live (live w.fs) at0 (drop at0 list) ≡ first_live (live w.fs) at rest
      → first_live (live w.fs) at rest ≡ found
      → vfs_readdir P (stream list at0) st d w.fs w.assignments
        ≡ expected P (stream list at0) st d w.fs w.assignments found
  readdir-from rest list at at0 st w found lives e =
      vfs_readdir-expected P (stream list at0) st d w.fs w.assignments
      ∙ ap (expected P (stream list at0) st d w.fs w.assignments) (lives ∙ e)

  readdir-found :
      (e : CString) (es list : List CString) (at at0 i : ℕ) (st : CHostFsStat) (w : World P)
      (info : PhysStat) (all : Assignments)
      → first_live (live w.fs) at0 (drop at0 list) ≡ first_live (live w.fs) at (e ∷ es)
      → P.stat (entry_path dir e) d w.fs ≡ some info
      → vfs_stat P (entry_path dir e) st d w.fs w.assignments
        ≡ some (pos 0, report P (entry_path dir e) (P.basename (entry_path dir e)).0 info i, all)
      → vfs_readdir P (stream list at0) st d w.fs w.assignments
        ≡ some (
          pos 0,
          report P (entry_path dir e) (P.basename (entry_path dir e)).0 info i,
          stream list (at + 1),
          all,
        )
  readdir-found e es list at at0 i st w info all lives exists stats =
      readdir-from (e ∷ es) list at at0 st w (at + 1, some e) lives
        (first_live-exists K mask flags del_dir P libc keeps dv drive dir at e es w.fs info exists)
      ∙ rw stats refl

  -- One turn of the loop, on an entry that exists.
  record Turned (e : CString) (es : List CString) (at p : ℕ) (st : CHostFsStat) (n : ℕ)
      (w : World P) (list : List CString) (ds : List (ℕ × VfsDir)) : Type 0 where
    st' : CHostFsStat
    w' : World P
    turn :
        (fuel : ℕ)
        → delete_loop K mask flags del_dir P libc dv (suc fuel) p st n w
          ≡ delete_loop K mask flags del_dir P libc dv fuel p st'
              (delete_one K mask flags del_dir P d dir e n w.fs).0
              w'
    runs : Runs P w w'
    fs : w'.fs ≡ (delete_one K mask flags del_dir P d dir e n w.fs).1
    dirs : w'.dirs ≡ (p, stream list (at + 1)) ∷ ds
    room : HasRoom (length es) (w'.assignments d)

  turned :
      (e : CString) (es : List CString) (at at0 p : ℕ) (list : List CString) (st : CHostFsStat)
      (n : ℕ) (w : World P) (ds : List (ℕ × VfsDir)) (info : PhysStat)
      → P.stat (entry_path dir e) d w.fs ≡ some info
      → IsValid P w
      → ArePlain dir list
      → ends_in_slash (entry_path dir e) ≡ false
      → suc (length es) ≤ max_assignments
      → HasRoom (suc (length es)) (w.assignments d)
      → w.dirs ≡ (p, stream list at0) ∷ ds
      → first_live (live w.fs) at0 (drop at0 list) ≡ first_live (live w.fs) at (e ∷ es)
      → Turned e es at p st n w list ds
  turned e es at at0 p list st n w ds info exists v plain plain_e small room streams lives =
      let (i, all, stats, named, left_room) =
        vfs_stat-assigned P libc keeps dv.prt_num drive (entry_path dir e) st w (length es) info v
          plain_e small room exists in
      let (called, runs) =
        readdir-call K mask flags del_dir P libc keeps dv drive dir p st w (stream list at0)
          (stream list (at + 1)) ds (pos 0) _ all plain streams
          (readdir-found e es list at at0 i st w info all lives exists stats) in
      let (w2, deleted, runs2, same_fs, same_dirs, same) =
        delete_entry-one K mask flags del_dir P libc keeps dv drive dir e n i info
          (with_stream P libc w ((p, stream list (at + 1)) ∷ ds) all) exists in
      record {
        st' = report P (entry_path dir e) (P.basename (entry_path dir e)).0 info i;
        w' = w2;
        turn = λ fuel.
            loop-next K mask flags del_dir P libc keeps dv drive dir fuel p n _ st _ w _ w2 called
              deleted;
        runs = Runs-trans P runs runs2;
        fs = same_fs;
        dirs = same_dirs;
        room = rw same left_room;
      }

  first_plain :
      (at : ℕ) (e : CString) (es list : List CString)
      → drop at list ≡ e ∷ es
      → ArePlain dir list
      → ends_in_slash (entry_path dir e) ≡ false
  unfolding ArePlain
  first_plain at e es list left plain =
      (subst (λ (l : List CString). ArePlain dir l) left (ArePlain-drop dir at list plain)).0

  pub delete_loop-Looped :
      (rest : List CString) (fuel at at0 : ℕ) (list : List CString) (p : ℕ) (st : CHostFsStat)
      (n : ℕ) (w : World P) (ds : List (ℕ × VfsDir))
      → length rest < fuel
      → IsValid P w
      → ArePlain dir list
      → length rest ≤ max_assignments
      → HasRoom (length rest) (w.assignments d)
      → w.dirs ≡ (p, stream list at0) ∷ ds
      → drop at list ≡ rest
      → first_live (live w.fs) at0 (drop at0 list) ≡ first_live (live w.fs) at rest
      → Looped fuel p st n w list rest ds
  unfolding first_live delete_all ArePlain
  delete_loop-Looped rest zero at at0 list p st n w ds more v plain small room streams left lives =
      absurd (omega arith)
  delete_loop-Looped [] (suc fuel) at at0 list p st n w ds more v plain small room streams left
        lives =
      let (e, runs) =
        readdir-call K mask flags del_dir P libc keeps dv drive dir p st w (stream list at0)
          (stream list at) ds minus_one st w.assignments plain streams
          (readdir-from [] list at at0 st w (at, none) lives refl) in
      record {
        w' = _;
        end = at;
        loops = loop-ended K mask flags del_dir P libc keeps dv drive dir fuel p n st st w _ e;
        runs = runs;
        fs = refl;
        dirs = refl;
      }
  delete_loop-Looped (e ∷ es) (suc fuel) at at0 list p st n w ds more v plain small room streams
        left lives =
      elim (Option-cases (P.stat (entry_path dir e) d w.fs)) [
        | inl missing ↦
            let rest =
              delete_loop-Looped es (suc fuel) (at + 1) at0 list p st n w ds (omega arith) v plain
                (omega arith) (λ j high. room j (omega arith)) streams (drop-next at list es e left)
                (lives
                  ∙ first_live-missing K mask flags del_dir P libc keeps dv drive dir at e es w.fs
                      missing) in
            restated (suc fuel) (suc fuel) p n n st st w w list (e ∷ es) es ds rest refl here (
              all_of-cons K mask flags del_dir P libc keeps dv drive dir e es n w.fs
              ∙ ap (λ (x : ℕ × P.Fs). all_of es x.0 x.1)
                  (one-missing K mask flags del_dir P libc keeps dv drive dir e n w.fs missing))
        | inr (info, exists) ↦
            let t =
              turned e es at at0 p list st n w ds info exists v plain
                (first_plain at e es list left plain) small room streams lives in
            let n' = (delete_one K mask flags del_dir P d dir e n w.fs).0 in
            let next = drop-next at list es e left in
            let rest =
              delete_loop-Looped es fuel (at + 1) (at + 1) list p t.st' n' t.w' ds (omega arith)
                (Runs-IsValid P keeps v t.runs) plain (omega arith) t.room t.dirs next
                (ap (λ (l : List CString). first_live (live t.w'.fs) (at + 1) l) next) in
            restated (suc fuel) fuel p n n' st t.st' w t.w' list (e ∷ es) es ds rest (t.turn fuel)
              t.runs
              (all_of-cons K mask flags del_dir P libc keeps dv drive dir e es n w.fs
                ∙ ap (λ (x : P.Fs). all_of es n' x) (sym t.fs))
      ]
