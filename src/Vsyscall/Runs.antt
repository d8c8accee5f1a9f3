-- ===== src/Vsyscall/Runs.antt =====
-- Sequences of calls: the state stays in order, and the clusters that were given out stay.
use mathlib.Core.Option.{some-injective}
use templeos_loader.Prelude.{
  false, ◌%◌, ◌^◌, ◌≡◌, arith, subst, Option, some, CString, ℤ, Option-cases, inl, inr,
}
use templeos_loader.Platform.{ends_in_slash, Platform}
use templeos_loader.Vfs.Clusters.{Assignments}
use templeos_loader.Vfs.Stat.{vfs_stat}
use templeos_loader.Vfs.Stat.Keeps.{AreKept, vfs_stat-keeps, vfs_readdir-keeps}
use templeos_loader.Vfs.Dirs.{vfs_readdir}
use templeos_loader.Vsyscall.Defs.{
  Syscall, decode, Args, Guest, Reply, Libc, World, Result, returned, exited, handle, enter_fs,
  restore_fs, vsyscall_dispatcher, find_dir,
}
use templeos_loader.Vsyscall.Frame.{world_of, allowed}
use templeos_loader.Vsyscall.Invariant.{IsValid, IsPlain, vsyscall_dispatcher-IsValid}

module _ (P : Platform) where
  -- Calls that return, one after the other, none of which passes a path that ends in a slash to
  -- `basename`. The guest's memory and the C library's answers may
  -- differ from call to call.
  pub data Runs : World P → World P → Type 0 where
    here : {w : World P} → Runs w w
    call :
        {w w' w'' : World P} (libc : Libc) (guest : Guest) (num : ℤ) (a : Args) (r : Reply)
        → IsPlain guest (decode num) a w.dirs
        → vsyscall_dispatcher P libc guest num a w ≡ some (returned r w')
        → Runs w' w''
        → Runs w w''

module _ (P : Platform)
    (keeps : (p : CString) → ends_in_slash p ≡ false → (P.basename p).1 ≡ p) where
  module _ (libc : Libc) (guest : Guest) where
    carry :
        (all : Assignments) (r res : Result P)
        → ◌≡◌ {A = Option (Result P)} (some r) (some res)
        → AreKept all (world_of P r).assignments
        → AreKept all (world_of P res).assignments
    carry all r res e k =
        subst (λ x. AreKept all (world_of P x).assignments) (some-injective _ _ e) k

    unchanged : (all all' : Assignments) → all' ≡ all → AreKept all all'
    unchanged all all' same = rw same (λ dv j a e. e)

    handle-AreKept :
        (s : Syscall) (a : Args) (w : World P) (res : Result P)
        → IsValid P w
        → IsPlain guest s a w.dirs
        → handle P libc guest s a w ≡ some res
        → AreKept w.assignments (world_of P res).assignments
    unfolding handle IsPlain
    handle-AreKept Syscall.stat a w res v plain h =
        elim (Option-cases (
          vfs_stat P (guest.text_at a.arg1) (guest.stat_at a.arg2) (a.arg3 % 2 ^ 8) w.fs
            w.assignments)) [
              | inl fault ↦ absurd (ground arith)
              | inr ((rc, st, all), e) ↦
                  carry w.assignments _ res (rw e at h)
                    (vfs_stat-keeps P keeps _ _ _ _ _ rc st all v.assigned plain e).kept
            ]
    handle-AreKept Syscall.readdir a w res v plain h =
        elim (Option-cases (find_dir a.arg1 w.dirs)) [
          | inl fault ↦ absurd (ground arith)
          | inr (d, found) ↦
              elim (Option-cases
                (vfs_readdir P d (guest.stat_at a.arg2) (a.arg3 % 2 ^ 8) w.fs w.assignments)) [
                  | inl fault ↦ absurd (ground arith)
                  | inr ((rc, st, d', all), e) ↦
                      carry w.assignments _ res (rw (found, e) at h)
                        (vfs_readdir-keeps P keeps _ _ _ _ _ rc st d' all v.assigned
                          (rw found at plain) e).kept
                ]
        ]
    handle-AreKept _ a w res v plain h =
        unchanged w.assignments (world_of P res).assignments (ground arith)

    restored :
        (all : Assignments) (r : Result P)
        → AreKept all (world_of P r).assignments
        → AreKept all (world_of P (restore_fs P libc guest r)).assignments
    restored all (returned r w) k = k
    restored all (exited rc w) k = k

    dispatcher-AreKept :
        (num : ℤ) (a : Args) (w : World P) (r : Reply) (w' : World P)
        → IsValid P w
        → IsPlain guest (decode num) a w.dirs
        → vsyscall_dispatcher P libc guest num a w ≡ some (returned r w')
        → AreKept w.assignments w'.assignments
    unfolding vsyscall_dispatcher
    dispatcher-AreKept num a w r w' v plain h =
        elim (Option-cases (handle P libc guest (decode num) a (enter_fs P libc guest w))) [
          | inl fault ↦ absurd (ground arith)
          | inr (res, e) ↦
              carry w.assignments _ (returned r w')
                (allowed P _ _ _ (rw (e, vsyscall_dispatcher) at h))
                (restored w.assignments res (
                  handle-AreKept (decode num) a (enter_fs P libc guest w) res
                    (record { sorted = v.sorted; assigned = v.assigned; console = v.console }) plain
                    e))
        ]

  pub Runs-IsValid : {w w' : World P} → IsValid P w → Runs P w w' → IsValid P w'
  Runs-IsValid v here = v
  Runs-IsValid v (call libc guest num a r plain h rest) =
      Runs-IsValid (vsyscall_dispatcher-IsValid P libc guest keeps num a _ _ v plain h) rest

  pub Runs-AreKept :
      {w w' : World P} → IsValid P w → Runs P w w' → AreKept w.assignments w'.assignments
  Runs-AreKept v here = λ dv j a e. e
  Runs-AreKept v (call libc guest num a r plain h rest) = λ dv j x e.
      Runs-AreKept (vsyscall_dispatcher-IsValid P libc guest keeps num a _ _ v plain h) rest dv j x
        (dispatcher-AreKept libc guest num a _ r _ v plain h dv j x e)

pub Runs-trans : (P : Platform) {w w' w'' : World P} → Runs P w w' → Runs P w' w'' → Runs P w w''
Runs-trans P here r = r
Runs-trans P (call libc guest num a reply plain e rest) r =
    call libc guest num a reply plain e (Runs-trans P rest r)
