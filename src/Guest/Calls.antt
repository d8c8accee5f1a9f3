-- ===== src/Guest/Calls.antt =====
-- The calls and the file attributes that the loader and the guest each number (vsyscall.h,
-- templeos.h, HolyCRT/VKernel.HH, HolyCRT/KernelA.HH).
use templeos_loader.Prelude.{ℕ, ◌≡◌, refl, pos}
use templeos_loader.Vsyscall.Defs.{Syscall, decode}

-- VSYSCALL_ of VKernel.HH
pub data GuestCall : Type 0 where
  memsize_call setfs_call setgs_call usleep_call putchar_call stat_call statclus_call fread_call
        read_call addsym_call fwrite_call exit_call opendir_call readdir_call closedir_call
        mkdir_call unlink_call :
      GuestCall

abbrev pub guest_number : GuestCall → ℕ
guest_number memsize_call = 1
guest_number setfs_call = 2
guest_number setgs_call = 3
guest_number usleep_call = 4
guest_number putchar_call = 5
guest_number stat_call = 6
guest_number statclus_call = 7
guest_number fread_call = 8
guest_number read_call = 9
guest_number addsym_call = 10
guest_number fwrite_call = 11
guest_number exit_call = 12
guest_number opendir_call = 13
guest_number readdir_call = 14
guest_number closedir_call = 15
guest_number mkdir_call = 16
guest_number unlink_call = 17

-- The call of vsyscall.h that the guest means; it calls FGET and FPUT FREAD and FWRITE.
abbrev pub wanted : GuestCall → Syscall
wanted memsize_call = Syscall.memsize
wanted setfs_call = Syscall.setfs
wanted setgs_call = Syscall.setgs
wanted usleep_call = Syscall.usleep
wanted putchar_call = Syscall.putchar
wanted stat_call = Syscall.stat
wanted statclus_call = Syscall.statclus
wanted fread_call = Syscall.fget
wanted read_call = Syscall.read
wanted addsym_call = Syscall.addsym
wanted fwrite_call = Syscall.fput
wanted exit_call = Syscall.exit
wanted opendir_call = Syscall.opendir
wanted readdir_call = Syscall.readdir
wanted closedir_call = Syscall.closedir
wanted mkdir_call = Syscall.mkdir
wanted unlink_call = Syscall.unlink

-- The dispatcher serves each number that the guest uses with the call that the guest means.
pub decode-guest_number : (c : GuestCall) → decode (pos (guest_number c)) ≡ wanted c
unfolding decode
decode-guest_number memsize_call = refl
decode-guest_number setfs_call = refl
decode-guest_number setgs_call = refl
decode-guest_number usleep_call = refl
decode-guest_number putchar_call = refl
decode-guest_number stat_call = refl
decode-guest_number statclus_call = refl
decode-guest_number fread_call = refl
decode-guest_number read_call = refl
decode-guest_number addsym_call = refl
decode-guest_number fwrite_call = refl
decode-guest_number exit_call = refl
decode-guest_number opendir_call = refl
decode-guest_number readdir_call = refl
decode-guest_number closedir_call = refl
decode-guest_number mkdir_call = refl
decode-guest_number unlink_call = refl

-- RS_ATTR_, those that are one bit
pub data FileAttr : Type 0 where
  read_only hidden system vol_id dir archive deleted resident compressed contiguous fixed : FileAttr

abbrev pub host_attr : FileAttr → ℕ
host_attr read_only = 0x01
host_attr hidden = 0x02
host_attr system = 0x04
host_attr vol_id = 0x08
host_attr dir = 0x10
host_attr archive = 0x20
host_attr deleted = 0x100
host_attr resident = 0x200
host_attr compressed = 0x400
host_attr contiguous = 0x800
host_attr fixed = 0x1000

abbrev pub guest_attr : FileAttr → ℕ
guest_attr read_only = 0x01
guest_attr hidden = 0x02
guest_attr system = 0x04
guest_attr vol_id = 0x08
guest_attr dir = 0x10
guest_attr archive = 0x20
guest_attr deleted = 0x100
guest_attr resident = 0x200
guest_attr compressed = 0x400
guest_attr contiguous = 0x800
guest_attr fixed = 0x1000

pub host_attr-guest_attr : (a : FileAttr) → host_attr a ≡ guest_attr a
host_attr-guest_attr read_only = refl
host_attr-guest_attr hidden = refl
host_attr-guest_attr system = refl
host_attr-guest_attr vol_id = refl
host_attr-guest_attr dir = refl
host_attr-guest_attr archive = refl
host_attr-guest_attr deleted = refl
host_attr-guest_attr resident = refl
host_attr-guest_attr compressed = refl
host_attr-guest_attr contiguous = refl
host_attr-guest_attr fixed = refl
