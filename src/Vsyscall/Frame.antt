-- ===== src/Vsyscall/Frame.antt =====
-- The FS base around a call.
use templeos_loader.Prelude.{
  Bool, true, false, none, if◌then◌else◌, ℕ, ◌≡◌, arith, Option, some, ℤ, Option-cases, inl, inr,
}
use templeos_loader.Platform.{Platform}
use templeos_loader.Vsyscall.Defs.{
  Syscall, decode, Args, Guest, Reply, Libc, World, Result, returned, exited, handle, enter_fs,
  restore_fs, vsyscall_dispatcher,
}

module _ (P : Platform) where
  abbrev pub world_of : Result P → World P
  world_of (returned r w) = w
  world_of (exited rc w) = w

  -- A call whose accesses are allowed is one that did not fault.
  pub allowed :
      (b : Bool) (r res : Result P)
      → ◌≡◌ {A = Option (Result P)} (if b then some r else none) (some res)
      → ◌≡◌ {A = Option (Result P)} (some r) (some res)
  allowed true r res h = h
  allowed false r res h = absurd (ground arith)

-- The emulated FS that a call leaves.
abbrev pub fs_after : Syscall → Args → ℕ → ℕ
fs_after Syscall.setfs a old = a.arg1
fs_after _ a old = old

module _ (P : Platform) (libc : Libc) (guest : Guest) where
  handle-frame :
      (s : Syscall) (a : Args) (w : World P) (res : Result P)
      → handle P libc guest s a w ≡ some res
      → ((world_of P res).host_fs ≡ w.host_fs)
        × ((world_of P res).emulated_fs ≡ fs_after s a w.emulated_fs)
  unfolding handle
  handle-frame Syscall.setfs a w res h = ground arith
  handle-frame _ a w res h = ground arith

  -- When a call returns, whatever its number, the FS base is the emulated one if `arch_prctl` takes
  -- it; if not, it is still the host's, or what it was before if `arch_prctl` does not take that
  -- either. The emulated one is the argument of VSYSCALL_SETFS and otherwise as before, and the
  -- saved host FS is as it was.
  pub vsyscall_dispatcher_fs :
      (num : ℤ) (a : Args) (w : World P) (r : Reply) (w' : World P)
      → vsyscall_dispatcher P libc guest num a w ≡ some (returned r w')
      → (w'.fs_base ≡ (
          if libc.arch_prctl w'.emulated_fs
          then w'.emulated_fs
          else if libc.arch_prctl w.host_fs
          then w.host_fs
          else w.fs_base))
        × (w'.emulated_fs ≡ fs_after (decode num) a w.emulated_fs)
        × (w'.host_fs ≡ w.host_fs)
  unfolding vsyscall_dispatcher
  vsyscall_dispatcher_fs num a w r w' h =
      elim (Option-cases (handle P libc guest (decode num) a (enter_fs P libc guest w))) [
        | inl fault ↦ absurd (ground arith)
        | inr (res, e) ↦ from_result res e (allowed P _ _ _ (rw (e, vsyscall_dispatcher) at h))
      ]
    where
      from_result :
          (res : Result P)
          → handle P libc guest (decode num) a (enter_fs P libc guest w) ≡ some res
          → ◌≡◌ {A = Option (Result P)} (some (restore_fs P libc guest res)) (some (returned r w'))
          → (w'.fs_base ≡ (
              if libc.arch_prctl w'.emulated_fs
              then w'.emulated_fs
              else if libc.arch_prctl w.host_fs
              then w.host_fs
              else w.fs_base))
            × (w'.emulated_fs ≡ fs_after (decode num) a w.emulated_fs)
            × (w'.host_fs ≡ w.host_fs)
      from_result (returned r1 w1) e e' =
          ground (arith, handle-frame (decode num) a (enter_fs P libc guest w) (returned r1 w1) e)
      from_result (exited rc w1) e e' = absurd (ground arith)
