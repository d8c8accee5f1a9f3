-- ===== src/Vsyscall/Clusters.antt =====
-- VSYSCALL_STAT and VSYSCALL_STATCLUS: a cluster number keeps its meaning.
use mathlib.Core.Option.{some-injective}
use templeos_loader.Prelude.{
  false, ℕ, ◌+◌, ◌%◌, ◌^◌, ◌<◌, ◌≡◌, refl, arith, ap, ◌∙◌, sym, subst, none, some, CString, pos,
  signed64, ltb, true, Option-cases, inl, inr,
}
use templeos_loader.Platform.{ends_in_slash, Platform, PhysStat}
use templeos_loader.Vfs.Clusters.{clus_min, max_assignments, num_drives, Assignments}
use templeos_loader.Vfs.Clusters.Scan.{Names}
use templeos_loader.Vfs.Clusters.Nodes.{AreAssigned, Names-get_node_by_clus}
use templeos_loader.Vfs.Stat.{CHostFsStat, vfs_stat, vfs_statclus}
use templeos_loader.Vfs.Stat.Agree.{report, statclus-found}
use templeos_loader.Vfs.Stat.Keeps.{vfs_stat-Names}
use templeos_loader.Vsyscall.Defs.{
  accesses, fs_behind, sizeof_host_fs_stat, decode, Args, Guest, Reply, code, Libc, World, Result,
  returned, exited, handle, vsyscall_dispatcher,
}
use templeos_loader.Vsyscall.Frame.{world_of, allowed}
use templeos_loader.Vsyscall.Invariant.{IsValid, IsPlain, vsyscall_dispatcher-IsValid}
use templeos_loader.Vsyscall.Runs.{Runs, Runs-IsValid, Runs-AreKept}

module _ (P : Platform)
    (keeps : (p : CString) → ends_in_slash p ≡ false → (P.basename p).1 ≡ p) where
  module _ (libc : Libc) (guest : Guest) where
    abbrev reply_of : Result P → Reply
    reply_of (returned r w) = r
    reply_of (exited rc w) = code rc

    -- What VSYSCALL_STAT did where it returned 0.
    stat-Names :
        (a : Args) (w : World P) (r : Reply) (w' : World P)
        → IsValid P w
        → ends_in_slash (guest.text_at a.arg1) ≡ false
        → vsyscall_dispatcher P libc guest (pos 6) a w ≡ some (returned r w')
        → r.rc ≡ pos 0
        → (st : CHostFsStat) × (i : ℕ) × (r.stat_out ≡ some (a.arg2, st))
          × (st.clus ≡ clus_min + i)
          × (a.arg3 % 2 ^ 8 < num_drives)
          × Names (w'.assignments (a.arg3 % 2 ^ 8)) i (guest.text_at a.arg1)
    unfolding vsyscall_dispatcher handle decode IsPlain
    stat-Names a w r w' v plain h ok =
        elim (Option-cases (
          vfs_stat P (guest.text_at a.arg1) (guest.stat_at a.arg2) (a.arg3 % 2 ^ 8) w.fs
            w.assignments)) [
              | inl fault ↦ absurd (ground arith)
              | inr ((rc, st, all), e) ↦
                  let same =
                    some-injective _ _
                      (allowed P _ _ _ (rw (e, vsyscall_dispatcher, handle) at h)) in
                  let reply = ap reply_of same in
                  let all_same = ap (λ x. (world_of P x).assignments) same in
                  let zero_rc : rc ≡ pos 0 = ap (λ (x : Reply). x.rc) reply ∙ ok in
                  let n =
                    vfs_stat-Names P keeps _ _ _ _ _ st all v.assigned plain
                      (e ∙ ap (λ z. some (z, st, all)) zero_rc) in
                  (
                    st,
                    n.0,
                    sym (ap (λ (x : Reply). x.stat_out) reply),
                    n.1,
                    n.2,
                    subst
                        (λ (x : Assignments). Names (x (a.arg3 % 2 ^ 8)) n.0 (guest.text_at a.arg1))
                        all_same n.3,
                  )
            ]

  -- VSYSCALL_STATCLUS stores what `vfs_statclus` finds.
  pub statclus-returned :
      (libc : Libc) (guest : Guest) (a : Args) (w : World P) (st : CHostFsStat)
      → guest.bytes_ok a.arg2 sizeof_host_fs_stat ≡ true
      → vfs_statclus P (signed64 a.arg1) (guest.stat_at a.arg2) (a.arg3 % 2 ^ 8) w.fs w.assignments
        ≡ some (pos 0, st)
      → vsyscall_dispatcher P libc guest (pos 7) a w
        ≡ some (
            returned
              (record { rc = pos 0; stat_out = some (a.arg2, st); buf_out = none })
              (record w { fs_base = fs_behind P libc guest w }))
  unfolding vsyscall_dispatcher handle decode accesses
  statclus-returned libc guest a w st mem e =
      rw (vsyscall_dispatcher, handle, decode, e, accesses, mem) refl

  -- In a state in order, the cluster of an assigned entry is served by VSYSCALL_STATCLUS.
  pub statclus-served :
      (libc : Libc) (guest : Guest) (a : Args) (w : World P) (path : CString) (i : ℕ)
      (info : PhysStat)
      → AreAssigned w.assignments
      → ends_in_slash path ≡ false
      → guest.bytes_ok a.arg2 sizeof_host_fs_stat ≡ true
      → a.arg3 % 2 ^ 8 < num_drives
      → Names (w.assignments (a.arg3 % 2 ^ 8)) i path
      → a.arg1 ≡ clus_min + i
      → P.stat path (a.arg3 % 2 ^ 8) w.fs ≡ some info
      → let st = record (report P path (P.basename path).0 info i) {
        name = (guest.stat_at a.arg2).name;
      } in
        vsyscall_dispatcher P libc guest (pos 7) a w
        ≡ some (
            returned
              (record { rc = pos 0; stat_out = some (a.arg2, st); buf_out = none })
              (record w { fs_base = fs_behind P libc guest w }))
  statclus-served libc guest a w path i info tables plain mem drive named clus exists =
      statclus-returned libc guest a w _ mem (
        ap (λ z. vfs_statclus P z (guest.stat_at a.arg2) (a.arg3 % 2 ^ 8) w.fs w.assignments)
          positive
        ∙ statclus-found P path (P.basename path).0 (a.arg3 % 2 ^ 8) w.fs info w.assignments kept
            exists i w.assignments (guest.stat_at a.arg2)
            (Names-get_node_by_clus w.assignments path (a.arg3 % 2 ^ 8) i tables drive named) named)
    where
      kept : P.basename path ≡ ((P.basename path).0, path)
      kept = ap (λ (q : CString). ((P.basename path).0, q)) (keeps path plain)

      positive : signed64 a.arg1 ≡ pos (clus_min + i)
      positive =
          let (n, t) = tables (a.arg3 % 2 ^ 8) drive in
          let below : i < max_assignments = ground (arith, t.free i, t.bounded, named) in
          let small : ltb (clus_min + i) (2 ^ 63) ≡ true = ground arith in
          ap signed64 clus ∙ rw small refl

  -- If `basename` changes no path in place that does not end in a slash, and a VSYSCALL_STAT of such
  -- a path from a state in order returned 0 and a `CHostFsStat`, then after any number of calls that
  -- return and pass only such paths to `basename`, whatever the guest's memory and the C library's
  -- answers, a VSYSCALL_STATCLUS of the cluster in it, on the same drive and into the guest's memory,
  -- returns 0 and the same path and cluster and the size of the file, as long as the file exists
  -- then.
  pub statclus-stat :
      (libc libc' : Libc) (guest guest' : Guest) (a a' : Args) (w w' w'' : World P) (r : Reply)
      (st : CHostFsStat) (info : PhysStat)
      → IsValid P w
      → ends_in_slash (guest.text_at a.arg1) ≡ false
      → guest'.bytes_ok a'.arg2 sizeof_host_fs_stat ≡ true
      → vsyscall_dispatcher P libc guest (pos 6) a w ≡ some (returned r w')
      → r.rc ≡ pos 0
      → r.stat_out ≡ some (a.arg2, st)
      → Runs P w' w''
      → a'.arg1 ≡ st.clus
      → a'.arg3 ≡ a.arg3
      → P.stat (guest.text_at a.arg1) (a.arg3 % 2 ^ 8) w''.fs ≡ some info
      → (st' : CHostFsStat) × (st'.abs_path ≡ guest.text_at a.arg1)
        × (st'.clus ≡ st.clus)
        × (st'.size ≡ info.filesize)
        × (vsyscall_dispatcher P libc' guest' (pos 7) a' w''
            ≡ some (
                returned
                  (record { rc = pos 0; stat_out = some (a'.arg2, st'); buf_out = none })
                  (record w'' { fs_base = fs_behind P libc' guest' w'' })))
  unfolding IsPlain decode
  statclus-stat libc libc' guest guest' a a' w w' w'' r st info v plain mem h ok out runs by_clus
        same_drive exists =
      let (st0, i, out0, clus0, drive, named) = stat-Names libc guest a w r w' v plain h ok in
      let clus =
        ap (λ (x : CHostFsStat). x.clus)
          (ap (λ (x : ℕ × CHostFsStat). x.1) (some-injective _ _ (sym out ∙ out0)))
        ∙ clus0 in
      let v' =
        vsyscall_dispatcher-IsValid P libc guest keeps (pos 6) a w (returned r w') v plain h in
      let later = Runs-AreKept P keeps v' runs (a.arg3 % 2 ^ 8) i _ named in
      let tables = (Runs-IsValid P keeps v' runs).assigned in
      let path = guest.text_at a.arg1 in
      let back = sym same_drive in
      (
        record (report P path (P.basename path).0 info i) { name = (guest'.stat_at a'.arg2).name },
        refl,
        sym clus,
        refl,
        statclus-served libc' guest' a' w'' path i info tables plain mem
            (subst (λ d. d % 2 ^ 8 < num_drives) back drive)
            (subst (λ d. Names (w''.assignments (d % 2 ^ 8)) i path) back later) (by_clus ∙ clus)
            (subst (λ d. P.stat path (d % 2 ^ 8) w''.fs ≡ some info) back exists),
      )
