-- ===== src/HostFs/Blocks.antt =====
-- Files that the guest opens by blocks on a host drive: the branches for host drives of `FBlkRead`,
-- `FBlkWrite` and `FClose` of HolyCRT/BlkDev/DskCFile.HC, which work on a buffer that holds the
-- whole file. A file that several tasks share (`iso_c_glb`) is left out, and block numbers and
-- counts are not negative.
pub mod Windows
pub mod RoundTrip
pub mod Close
mod Tests
use templeos_loader.Prelude.{
  ℕ, ◌+◌, ◌-◌, ◌*◌, ◌==◌, ltb, leb, Bool, true, false, not, if◌then◌else◌, Option, none, some, List,
  [], ◌++◌, length, take, drop, CString, ◌>>=◌,
}
use templeos_loader.Platform.{Platform}
use templeos_loader.Guest.Calls.{fwrite_call}
use templeos_loader.Vsyscall.Defs.{Libc, World}
use templeos_loader.HostFs.{Kernel, CDrv, passing, vsys_call}

abbrev pub blk_size : ℕ
blk_size = 512

-- `CFile`: the buffer with its MSize bytes, `max_blk + 1`, `de.size`, whether `flags` has FF_WRITE,
-- and `de.full_name`.
pub record CFile : Type 0 where
  pub clus_buf : List ℕ
  pub blk_cnt : ℕ
  pub fblk_num : ℕ
  pub size : ℕ
  pub writable : Bool
  pub full_name : CString

-- The block to start at; none stands for FFB_NEXT_BLK.
abbrev pub start_blk : CFile → Option ℕ → ℕ
start_blk f none = f.fblk_num
start_blk f (some blk) = blk

-- The return value, what is copied to the caller's buffer, and the file. None is a read behind the
-- file's buffer.
unfoldable pub fblk_read : CFile → Option ℕ → ℕ → Option (Bool × List ℕ × CFile)
fblk_read f blk cnt =
    let first = start_blk f blk in
    if ltb f.blk_cnt (first + cnt)
    then some (false, [], f)
    else if cnt == 0
    then some (true, [], f)
    else if leb ((first + cnt) * blk_size) (length f.clus_buf)
    then some (
      true,
      take (cnt * blk_size) (drop (first * blk_size) f.clus_buf),
      record f { fblk_num = first + cnt },
    )
    else none

module _ (malloc : ℕ → List ℕ) where
  -- The buffer with at least `n` bytes. The new block has all the bytes that `MAlloc` gives for `n`,
  -- which may be more; behind those that are copied it holds what it held.
  abbrev pub grow : List ℕ → ℕ → List ℕ
  grow buf n = if ltb (length buf) n then buf ++ drop (length buf) (malloc n) else buf

  -- The bytes of `src` from byte `at` on.
  abbrev pub store : List ℕ → ℕ → List ℕ → List ℕ
  store buf at src = take at buf ++ src ++ drop (at + length src) buf

  -- `src` is the caller's buffer, of `cnt` blocks; none is a shorter one.
  unfoldable pub fblk_write : CFile → List ℕ → Option ℕ → ℕ → Option (Bool × CFile)
  fblk_write f src blk cnt =
      let first = start_blk f blk in
      let end = (first + cnt) * blk_size in
      if ltb f.blk_cnt (first + cnt)
      then some (false, f)
      else if not f.writable
      then some (false, f)
      else if cnt == 0
      then some (true, f)
      else if not (length src == cnt * blk_size)
      then none
      else some (
        true,
        record f {
          clus_buf = store (grow f.clus_buf end) (first * blk_size) src;
          size = if ltb f.size end then end else f.size;
          fblk_num = first + cnt;
        },
      )

module _ (K : Kernel) (P : Platform) (libc : Libc) where
  -- The drive letter and the colon are not part of the path.
  unfoldable pub fclose : CDrv → CFile → World P → Option (World P)
  fclose dv f w =
      if f.writable
      then (do
        (r, w') ←
            vsys_call P libc fwrite_call K.path_at K.buf_at f.size dv.prt_num
              (passing (drop 2 f.full_name) f.clus_buf K.unset) w
        some w')
      else some w
