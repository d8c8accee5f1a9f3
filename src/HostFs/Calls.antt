-- ===== src/HostFs/Calls.antt =====
-- The driver's VSYSCALL_STAT and VSYSCALL_STATCLUS, from a state of the loader that is in order.
use templeos_loader.Prelude.{
  true, Bool, Option, List, false, ℕ, suc, ◌%◌, ◌^◌, ◌≤◌, ◌<◌, ◌≡◌, inl, inr, refl, arith, ap, none,
  some, List, [], CString, pos, minus_one, signed64, Option-cases,
}
use templeos_loader.Platform.{ends_in_slash, Platform, PhysStat}
use templeos_loader.Vfs.Clusters.{max_assignments, num_drives, Assignments, get_node_by_path}
use templeos_loader.Vfs.Clusters.Scan.{Names}
use templeos_loader.Vfs.Clusters.Nodes.{get_node_by_path-Obtained}
use templeos_loader.Vfs.Stat.{CHostFsStat, vfs_stat}
use templeos_loader.Vfs.Stat.Agree.{report, vfs_stat-found, vfs_stat-missing}
use templeos_loader.Vfs.Stat.Room.{HasRoom, Obtained-HasRoom, vfs_stat-ne-none}
use templeos_loader.Vfs.Files.{vfs_fget, vfs_fput}
use templeos_loader.Vsyscall.Defs.{
  set_base, accesses, decode, Args, Guest, Reply, code, Libc, World, returned, handle,
  vsyscall_dispatcher,
}
use templeos_loader.Vsyscall.Invariant.{IsPlain, IsValid}
use templeos_loader.Vsyscall.Runs.{Runs, here, call}
use templeos_loader.Guest.Calls.{GuestCall, guest_number}
use templeos_loader.HostFs.{vsys_call, passing}

-- A guest that passes pointers to memory that can be accessed.
abbrev pub IsOpen : Guest → Type 0
IsOpen guest = ((p : ℕ) → guest.text_ok p ≡ true) × ((p n : ℕ) → guest.bytes_ok p n ≡ true)

pub passing-IsOpen :
    (path : CString) (buf : List ℕ) (st : CHostFsStat) → IsOpen (passing path buf st)
passing-IsOpen path buf st = (λ p. refl, λ p n. refl)

either_way :
    {A : Type 0} (o : Option A) (b : A → Bool)
    → ((x : A) → b x ≡ true)
    → elim o [ none ↦ true | some x ↦ b x ] ≡ true
either_way none b h = refl
either_way (some x) b h = h x

module _ (P : Platform) (libc : Libc) where
  -- A call by the driver that the dispatcher returns from.
  pub vsys_call-returned :
      (c : GuestCall) (arg1 arg2 arg3 arg4 : ℕ) (guest : Guest) (w : World P) (r : Reply)
      (w' : World P)
      → IsPlain guest
          (decode (pos (guest_number c)))
          (record { arg1 = arg1; arg2 = arg2; arg3 = arg3; arg4 = arg4 })
          w.dirs
      → vsyscall_dispatcher P libc guest
          (pos (guest_number c))
          (record { arg1 = arg1; arg2 = arg2; arg3 = arg3; arg4 = arg4 })
          w
        ≡ some (returned r w')
      → (vsys_call P libc c arg1 arg2 arg3 arg4 guest w ≡ some (r, w')) × Runs P w w'
  unfolding vsys_call
  vsys_call-returned c arg1 arg2 arg3 arg4 guest w r w' plain e =
      (rw (vsys_call, e) refl, call libc guest (pos (guest_number c)) _ r plain e here)

  abbrev pub base_behind : World P → ℕ
  base_behind w = set_base libc w.emulated_fs (set_base libc w.host_fs w.fs_base)

  -- The state behind a VSYSCALL_STAT that assigned clusters.
  abbrev pub with_assignments : World P → Assignments → World P
  with_assignments w all = record w { assignments = all; fs_base = base_behind w }

  stat-returned :
      (guest : Guest) (a : Args) (w : World P) (st : CHostFsStat) (all : Assignments)
      → IsOpen guest
      → vfs_stat P (guest.text_at a.arg1) (guest.stat_at a.arg2) (a.arg3 % 2 ^ 8) w.fs w.assignments
        ≡ some (pos 0, st, all)
      → vsyscall_dispatcher P libc guest (pos 6) a w
        ≡ some (
            returned
              (record { rc = pos 0; stat_out = some (a.arg2, st); buf_out = none })
              (with_assignments w all))
  unfolding vsyscall_dispatcher handle decode accesses
  stat-returned guest a w st all mem e =
      rw (vsyscall_dispatcher, handle, decode, e, accesses, mem.0 a.arg1, mem.1 a.arg2 _) refl

  pub stat-missing :
      (guest : Guest) (a : Args) (w : World P)
      → IsOpen guest
      → P.stat (guest.text_at a.arg1) (a.arg3 % 2 ^ 8) w.fs ≡ none
      → vsyscall_dispatcher P libc guest (pos 6) a w
        ≡ some (
            returned
              (record {
                rc = minus_one;
                stat_out = some (a.arg2, guest.stat_at a.arg2);
                buf_out = none;
              })
              (with_assignments w w.assignments))
  unfolding vsyscall_dispatcher handle decode accesses
  stat-missing guest a w mem missing =
      rw
        (
          vsyscall_dispatcher,
          handle,
          decode,
          vfs_stat-missing P (guest.text_at a.arg1) (guest.stat_at a.arg2) (a.arg3 % 2 ^ 8) w.fs
              w.assignments missing,
          accesses,
          mem.0 a.arg1,
        )
        refl

  -- The state behind a call that changes files.
  abbrev pub with_fs : World P → P.Fs → World P
  with_fs w fs = record w { fs = fs; fs_base = base_behind w }

  pub fread-returned :
      (guest : Guest) (a : Args) (w : World P) (n : ℕ) (bytes : List ℕ) (fs : P.Fs)
      → IsOpen guest
      → vfs_fget P (guest.text_at a.arg1) a.arg3 (a.arg4 % 2 ^ 8) w.fs ≡ (n, bytes, fs)
      → vsyscall_dispatcher P libc guest (pos 8) a w
        ≡ some (
            returned
              (record {
                rc = signed64 (n % 2 ^ 64);
                stat_out = none;
                buf_out = some (a.arg2, bytes);
              })
              (with_fs w fs))
  unfolding vsyscall_dispatcher handle decode accesses
  fread-returned guest a w n bytes fs mem e =
      rw
        (
          vsyscall_dispatcher,
          handle,
          decode,
          ap (λ (r : ℕ × List ℕ × P.Fs). r.0) e,
          ap (λ (r : ℕ × List ℕ × P.Fs). r.1) e,
          ap (λ (r : ℕ × List ℕ × P.Fs). r.2) e,
          accesses,
          mem.0 a.arg1,
          mem.1 a.arg2 _,
        )
        refl

  pub fwrite-returned :
      (guest : Guest) (a : Args) (w : World P) (n : ℕ) (fs : P.Fs)
      → IsOpen guest
      → vfs_fput P (guest.text_at a.arg1) (guest.bytes_at a.arg2 a.arg3) (a.arg4 % 2 ^ 8) w.fs
        ≡ (n, fs)
      → vsyscall_dispatcher P libc guest (pos 11) a w
        ≡ some (returned (code (signed64 (n % 2 ^ 64))) (with_fs w fs))
  unfolding vsyscall_dispatcher handle decode accesses
  fwrite-returned guest a w n fs mem e =
      rw
        (
          vsyscall_dispatcher,
          handle,
          decode,
          ap (λ (r : ℕ × P.Fs). r.0) e,
          ap (λ (r : ℕ × P.Fs). r.1) e,
          accesses,
          mem.0 a.arg1,
          either_way _ (λ h. guest.bytes_ok a.arg2 a.arg3) (λ h. mem.1 a.arg2 a.arg3),
        )
        refl

  module _ (keeps : (p : CString) → ends_in_slash p ≡ false → (P.basename p).1 ≡ p) (prt_num : ℕ)
      (drive : prt_num % 2 ^ 8 < num_drives) where
    -- `vfs_stat` of an existing file, with room for its cluster.
    pub vfs_stat-assigned :
        (path : CString) (st : CHostFsStat) (w : World P) (k : ℕ) (info : PhysStat)
        → IsValid P w
        → ends_in_slash path ≡ false
        → suc k ≤ max_assignments
        → HasRoom (suc k) (w.assignments (prt_num % 2 ^ 8))
        → P.stat path (prt_num % 2 ^ 8) w.fs ≡ some info
        → (i : ℕ) × (all : Assignments) × (vfs_stat P path st (prt_num % 2 ^ 8) w.fs w.assignments
            ≡ some (pos 0, report P path (P.basename path).0 info i, all))
          × Names (all (prt_num % 2 ^ 8)) i path
          × HasRoom k (all (prt_num % 2 ^ 8))
    unfolding vfs_stat
    vfs_stat-assigned path st w k info v plain small room exists =
        elim (Option-cases (get_node_by_path w.assignments path (prt_num % 2 ^ 8))) [
          | inl full ↦ absurd (
              vfs_stat-ne-none P path st (prt_num % 2 ^ 8) w.fs w.assignments v.assigned drive
                (room _ (omega arith)) (rw (vfs_stat, exists, full) refl))
          | inr ((i, all), got) ↦
              let o =
                get_node_by_path-Obtained w.assignments path (prt_num % 2 ^ 8) i all v.assigned
                  got in
              let kept : P.basename path ≡ ((P.basename path).0, path) =
                ap (λ (q : CString). ((P.basename path).0, q)) (keeps path plain) in
              (
                i,
                all,
                vfs_stat-found P path (P.basename path).0 (prt_num % 2 ^ 8) w.fs info w.assignments
                    kept exists i all st got o.named,
                o.named,
                Obtained-HasRoom w.assignments path (prt_num % 2 ^ 8) i k all small room o,
              )
        ]

    -- VSYSCALL_STAT of such a file.
    pub stat-found :
        (addr addr' : ℕ) (path : CString) (st : CHostFsStat) (w : World P) (k : ℕ) (info : PhysStat)
        → IsValid P w
        → ends_in_slash path ≡ false
        → suc k ≤ max_assignments
        → HasRoom (suc k) (w.assignments (prt_num % 2 ^ 8))
        → P.stat path (prt_num % 2 ^ 8) w.fs ≡ some info
        → (i : ℕ) × (all : Assignments) × (vsyscall_dispatcher P libc
              (passing path [] st)
              (pos 6)
              (record { arg1 = addr; arg2 = addr'; arg3 = prt_num; arg4 = 0 })
              w
            ≡ some (
                returned
                  (record {
                    rc = pos 0;
                    stat_out = some (addr', report P path (P.basename path).0 info i);
                    buf_out = none;
                  })
                  (with_assignments w all)))
          × Names (all (prt_num % 2 ^ 8)) i path
          × HasRoom k (all (prt_num % 2 ^ 8))
    stat-found addr addr' path st w k info v plain small room exists =
        let (i, all, stats, named, left) =
          vfs_stat-assigned path st w k info v plain small room exists in
        (
          i,
          all,
          stat-returned (passing path [] st)
              (record { arg1 = addr; arg2 = addr'; arg3 = prt_num; arg4 = 0 }) w _ all
              (passing-IsOpen path [] st) stats,
          named,
          left,
        )
