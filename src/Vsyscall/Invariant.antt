-- ===== src/Vsyscall/Invariant.antt =====
-- The state of the loader stays in order under every call.
use mathlib.Core.Option.{some-injective}
use templeos_loader.Prelude.{
  none, List, ℕ, false, ◌%◌, ◌^◌, ◌≡◌, refl, arith, Option, some, CString, ℤ, Option-cases, inl,
  inr, subst,
}
use templeos_loader.Platform.{ends_in_slash, Platform}
use templeos_loader.Symtable.Order.{IsSorted, addsym-IsSorted}
use templeos_loader.Console.Spec.{Pending, Represents, putchar-keeps}
use templeos_loader.Vfs.Clusters.Nodes.{AreAssigned}
use templeos_loader.Vfs.Stat.Keeps.{ArePlain, vfs_stat-keeps, vfs_readdir-keeps}
use templeos_loader.Vfs.Stat.{vfs_stat}
use templeos_loader.Vfs.Dirs.{VfsDir, vfs_readdir}
use templeos_loader.Vsyscall.Defs.{
  Syscall, decode, Args, Guest, Libc, World, Result, returned, exited, handle, enter_fs, restore_fs,
  vsyscall_dispatcher, find_dir,
}
use templeos_loader.Vsyscall.Frame.{world_of, allowed}

-- The symbols are sorted, the cluster tables are in order, and the console's buffer has room.
pub record IsValid (P : Platform) (w : World P) : Type 0 where
  pub sorted : IsSorted w.syms
  pub assigned : AreAssigned w.assignments
  pub console : (p : Pending) × Represents w.fmt p

-- The paths that a call passes to `basename` do not end in a slash: the one of a VSYSCALL_STAT, and
-- those of the entries of the stream of a VSYSCALL_READDIR.
abbrev PlainStream : Option VfsDir → Type 0
PlainStream none = Unit
PlainStream (some d) = ArePlain d.path d.list

unfoldable pub IsPlain : Guest → Syscall → Args → List (ℕ × VfsDir) → Type 0
IsPlain guest Syscall.stat a dirs = ends_in_slash (guest.text_at a.arg1) ≡ false
IsPlain guest Syscall.readdir a dirs = PlainStream (find_dir a.arg1 dirs)
IsPlain guest _ a dirs = Unit

module _ (P : Platform) (libc : Libc) (guest : Guest)
    (keeps : (p : CString) → ends_in_slash p ≡ false → (P.basename p).1 ≡ p) where
  carry :
      (r res : Result P)
      → ◌≡◌ {A = Option (Result P)} (some r) (some res)
      → IsValid P (world_of P r)
      → IsValid P (world_of P res)
  carry r res e v = subst (λ x. IsValid P (world_of P x)) (some-injective _ _ e) v

  unchanged :
      (w w' : World P)
      → IsValid P w
      → (w'.syms ≡ w.syms) × (w'.assignments ≡ w.assignments) × (w'.fmt ≡ w.fmt)
      → IsValid P w'
  unchanged w w' v same = record {
    sorted = rw (same.0) v.sorted;
    assigned = rw (same.1) v.assigned;
    console = rw (same.2) v.console;
  }

  restored :
      (r : Result P) → IsValid P (world_of P r) → IsValid P (world_of P (restore_fs P libc guest r))
  restored (returned r w) v = unchanged w _ v (refl, refl, refl)
  restored (exited rc w) v = v

  handle-IsValid :
      (s : Syscall) (a : Args) (w : World P) (res : Result P)
      → IsValid P w
      → IsPlain guest s a w.dirs
      → handle P libc guest s a w ≡ some res
      → IsValid P (world_of P res)
  unfolding handle IsPlain
  handle-IsValid Syscall.addsym a w res v plain h = carry _ res h (record {
    sorted = addsym-IsSorted (guest.text_at a.arg1) (guest.text_at a.arg2) a.arg3 w.syms v.sorted;
    assigned = v.assigned;
    console = v.console;
  })
  handle-IsValid Syscall.putchar a w res v plain h =
      let (fmt, e, rep) = putchar-keeps a.arg1 w.fmt v.console.0 v.console.1 in
      carry _ res (rw e at h)
        (record { sorted = v.sorted; assigned = v.assigned; console = (_, rep) })
  handle-IsValid Syscall.stat a w res v plain h =
      elim (Option-cases (
        vfs_stat P (guest.text_at a.arg1) (guest.stat_at a.arg2) (a.arg3 % 2 ^ 8) w.fs
          w.assignments)) [
            | inl fault ↦ absurd (ground arith)
            | inr ((rc, st, all), e) ↦ carry _ res (rw e at h) (record {
              sorted = v.sorted;
              assigned = (vfs_stat-keeps P keeps _ _ _ _ _ rc st all v.assigned plain e).tables;
              console = v.console;
            })
          ]
  handle-IsValid Syscall.readdir a w res v plain h = elim (Option-cases (find_dir a.arg1 w.dirs)) [
    | inl fault ↦ absurd (ground arith)
    | inr (d, found) ↦
        elim (Option-cases
          (vfs_readdir P d (guest.stat_at a.arg2) (a.arg3 % 2 ^ 8) w.fs w.assignments)) [
            | inl fault ↦ absurd (ground arith)
            | inr ((rc, st, d', all), e) ↦ carry _ res (rw (found, e) at h) (record {
              sorted = v.sorted;
              assigned =
                  (vfs_readdir-keeps P keeps _ _ _ _ _ rc st d' all v.assigned (rw found at plain)
                    e).tables;
              console = v.console;
            })
          ]
  ]
  handle-IsValid Syscall.closedir a w res v plain h = unchanged w (world_of P res) v (ground arith)
  handle-IsValid _ a w res v plain h = unchanged w (world_of P res) v (ground arith)

  -- If `basename` changes no path in place that does not end in a slash, every call from a state in
  -- order that does not fault leaves a state in order, also one that ends the process, unless it is
  -- a VSYSCALL_STAT of a path that ends in a slash or a VSYSCALL_READDIR of a stream with such a
  -- path.
  pub vsyscall_dispatcher-IsValid :
      (num : ℤ) (a : Args) (w : World P) (res : Result P)
      → IsValid P w
      → IsPlain guest (decode num) a w.dirs
      → vsyscall_dispatcher P libc guest num a w ≡ some res
      → IsValid P (world_of P res)
  unfolding vsyscall_dispatcher
  vsyscall_dispatcher-IsValid num a w res v plain h =
      elim (Option-cases (handle P libc guest (decode num) a (enter_fs P libc guest w))) [
        | inl fault ↦ absurd (ground arith)
        | inr (r, e) ↦ carry _ res (allowed P _ _ _ (rw (e, vsyscall_dispatcher) at h)) (
            restored r (
              handle-IsValid (decode num) a (enter_fs P libc guest w) r
                (unchanged w (enter_fs P libc guest w) v (refl, refl, refl)) plain e))
      ]
