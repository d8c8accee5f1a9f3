-- ===== src/HostFs/Files/RoundTrip.antt =====
-- What the driver writes into a file it reads back, through the calls of the loader.
use templeos_loader.Prelude.{
  false, ℕ, ◌%◌, ◌^◌, ◌<◌, ◌≡◌, refl, arith, ap, ◌∙◌, Option, none, some, List, [], ◌∷◌, ◌++◌,
  length, CString, ℤ, pos, unsigned,
}
use templeos_loader.Platform.{ends_in_slash, Platform}
use templeos_loader.Vfs.Clusters.{num_drives}
use templeos_loader.Vfs.Stat.{CHostFsStat}
use templeos_loader.Vfs.Stat.Agree.{report}
use templeos_loader.Vfs.Stat.Room.{HasRoom}
use templeos_loader.Vfs.Files.{or_zero}
use templeos_loader.Vsyscall.Defs.{decode, Args, Reply, Libc, World}
use templeos_loader.Vsyscall.Invariant.{IsPlain, IsValid}
use templeos_loader.Vsyscall.Runs.{Runs-IsValid}
use templeos_loader.Guest.Calls.{stat_call, fread_call, fwrite_call}
use templeos_loader.HostFs.{Kernel, CDrv, fst_hostfs, passing, host_fs_make_abs_path, vsys_call}
use templeos_loader.HostFs.Answers.{HasNoFormat, join}
use templeos_loader.HostFs.Find.{make_abs_path-join}
use templeos_loader.HostFs.Calls.{
  passing-IsOpen, vsys_call-returned, with_assignments, with_fs, stat-found, fread-returned,
  fwrite-returned,
}
use templeos_loader.HostFs.Files.{
  FileRead, bytes_after, terminated, read_file, host_fs_file_read, host_fs_file_write,
}
use templeos_loader.HostFs.Files.Contents.{
  IsFileStore, vfs_fget-contents, vfs_fput-contents, count_lem, take-length, terminated_lem,
}

module _ (K : Kernel) (P : Platform) (libc : Libc)
    (keeps : (p : CString) → ends_in_slash p ≡ false → (P.basename p).1 ≡ p) (dv : CDrv)
    (prints : (s t : CString) → HasNoFormat t → K.cat_print s t ≡ s ++ t)
    (host : dv.fs_type ≡ fst_hostfs) (drive : dv.prt_num % 2 ^ 8 < num_drives)
    (contents : P.Fs → CString → Option (List ℕ))
    (store : IsFileStore P (dv.prt_num % 2 ^ 8) contents) where
  abbrev d : ℕ
  d = dv.prt_num % 2 ^ 8

  read_file-called :
      (path : CString) (st : CHostFsStat) (n : ℕ) (r : Reply) (buf : List ℕ) (w w' : World P)
      → unsigned 64 st.size ≡ n
      → vsys_call P libc fread_call K.path_at K.buf_at n dv.prt_num (passing path [] st) w
        ≡ some (r, w')
      → terminated st.size r.rc (bytes_after r) ≡ some buf
      → read_file K P libc dv path st w
        ≡ some (record { buf = some buf; size = r.rc; attr = K.file_attr st.name st.attr }, w')
  unfolding read_file
  read_file-called path st n r buf w w' sized e ends = rw (read_file, sized, e, ends) refl

  file_write-called :
      (cur_dir name path : CString) (b : List ℕ) (size : ℤ) (r : Reply) (w w' : World P)
      → host_fs_make_abs_path K cur_dir name ≡ path
      → K.cfile_name_to name ≡ some name
      → vsys_call P libc fwrite_call K.path_at K.buf_at
          (or_zero size)
          dv.prt_num
          (passing path b K.unset)
          w
        ≡ some (r, w')
      → host_fs_file_write K P libc dv cur_dir name b size w ≡ some (r.rc, w')
  unfolding host_fs_file_write
  file_write-called cur_dir name path b size r w w' joined valid e =
      rw (host_fs_file_write, host, valid, joined, e) refl

  read_file-contents :
      (path : CString) (st : CHostFsStat) (b : List ℕ) (w : World P)
      → contents w.fs path ≡ some b
      → st.size ≡ pos (length b)
      → length b < 2 ^ 63
      → (res : FileRead) × (w' : World P) × (read_file K P libc dv path st w ≡ some (res, w'))
        × (res.buf ≡ some (b ++ 0 ∷ []))
        × (res.size ≡ pos (length b))
  unfolding decode IsPlain
  read_file-contents path st b w h sized small =
      let (fs, got) = vfs_fget-contents P d contents store w.fs path b h in
      let bytes : unsigned 64 (pos (length b)) ≡ length b = ground arith in
      let (e, runs) =
        vsys_call-returned P libc fread_call K.path_at K.buf_at (length b) dv.prt_num
          (passing path [] st) w _ _ tt
          (fread-returned P libc (passing path [] st)
            (record { arg1 = K.path_at; arg2 = K.buf_at; arg3 = length b; arg4 = dv.prt_num }) w
            (length b) b fs (passing-IsOpen path [] st) got) in
      (
        record {
          buf = some (b ++ 0 ∷ []);
          size = pos (length b);
          attr = K.file_attr st.name st.attr;
        },
        with_fs P libc w fs,
        read_file-called path st (length b) _ (b ++ 0 ∷ []) w _ (rw sized bytes) e
              (rw (sized, count_lem (length b) small) (terminated_lem b))
            ∙ ap
                (λ z. some (
                  record { buf = some (b ++ 0 ∷ []); size = z; attr = K.file_attr st.name st.attr },
                  with_fs P libc w fs,
                ))
                (count_lem (length b) small),
        refl,
        refl,
      )

  file_read-called :
      (cur_dir filename path : CString) (st : CHostFsStat) (w w' : World P)
      → host_fs_make_abs_path K cur_dir filename ≡ path
      → vsys_call P libc stat_call K.path_at K.stat_at dv.prt_num 0 (passing path [] K.unset) w
        ≡ some (record { rc = pos 0; stat_out = some (K.stat_at, st); buf_out = none }, w')
      → host_fs_file_read K P libc dv cur_dir filename w ≡ read_file K P libc dv path st w'
  unfolding host_fs_file_read
  file_read-called cur_dir filename path st w w' joined e =
      rw (host_fs_file_read, host, joined, e) refl

  -- If PhysFS keeps files, `basename` changes no path in place that does not end in a slash, and
  -- `CatPrint` prints a text without `%` as it is, then on a host drive, one of the drives of the loader, in a state in
  -- order of the loader with room for a cluster, for a name without `%` that does not end in a slash, `HostFsFileRead` of a
  -- file of less than 2^63 bytes gives a buffer with all its bytes and a zero behind them, and
  -- their number.
  pub host_fs_file_read-contents :
      (cur_dir filename : CString) (b : List ℕ) (w : World P)
      → IsValid P w
      → HasNoFormat filename
      → ends_in_slash (join cur_dir filename) ≡ false
      → HasRoom 1 (w.assignments d)
      → contents w.fs (join cur_dir filename) ≡ some b
      → length b < 2 ^ 63
      → (res : FileRead) × (w' : World P) × (host_fs_file_read K P libc dv cur_dir filename w
          ≡ some (res, w'))
        × (res.buf ≡ some (b ++ 0 ∷ []))
        × (res.size ≡ pos (length b))
  unfolding decode IsPlain
  host_fs_file_read-contents cur_dir filename b w v unformatted plain room h small =
      let path = make_abs_path-join K P libc keeps dv filename cur_dir prints unformatted in
      let (info, exists, sized) = store.stats w.fs (join cur_dir filename) b h in
      let (i, all, stats, named, room') =
        stat-found P libc keeps dv.prt_num drive K.path_at K.stat_at (join cur_dir filename) K.unset
          w 0 info v plain (omega arith) room exists in
      let (e, runs) =
        vsys_call-returned P libc stat_call K.path_at K.stat_at dv.prt_num 0
          (passing (join cur_dir filename) [] K.unset) w _ _ plain stats in
      let (res, w', reads, whole, count) =
        read_file-contents (join cur_dir filename)
          (report P (join cur_dir filename) (P.basename (join cur_dir filename)).0 info i) b
          (with_assignments P libc w all) h sized small in
      (
        res,
        w',
        file_read-called cur_dir filename (join cur_dir filename) _ w _ path e ∙ reads,
        whole,
        count,
      )

  -- If PhysFS keeps files, `basename` changes no path in place that does not end in a slash, and
  -- `CatPrint` prints a text without `%` as it is, then on a host drive, one of the drives of the loader, in a state in
  -- order of the loader with room for a cluster, for a name without `%` that does not end in a slash and that `CFileNameTo` takes
  -- as it is, where the path can be opened for writing and PhysFS writes all bytes, of which there
  -- are less than 2^63: `HostFsFileWrite`
  -- returns their number, and `HostFsFileRead` of the name then gives a buffer with these bytes
  -- and a zero behind them, and their number.
  pub host_fs_file_write-host_fs_file_read :
      (cur_dir name : CString) (b : List ℕ) (w : World P) (f : P.File) (fs1 : P.Fs)
      → IsValid P w
      → HasNoFormat name
      → ends_in_slash (join cur_dir name) ≡ false
      → K.cfile_name_to name ≡ some name
      → HasRoom 1 (w.assignments d)
      → length b < 2 ^ 63
      → P.open_write (join cur_dir name) d w.fs ≡ (some f, fs1)
      → (P.write_bytes f b d fs1).0 ≡ pos (length b)
      → (w' w'' : World P) × (res : FileRead) × (host_fs_file_write K P libc dv cur_dir name b
            (pos (length b))
            w
          ≡ some (pos (length b), w'))
        × (host_fs_file_read K P libc dv cur_dir name w' ≡ some (res, w''))
        × (res.buf ≡ some (b ++ 0 ∷ []))
        × (res.size ≡ pos (length b))
  unfolding decode IsPlain
  host_fs_file_write-host_fs_file_read cur_dir name b w f fs1 v unformatted plain valid room small
        opened wrote =
      let path = make_abs_path-join K P libc keeps dv name cur_dir prints unformatted in
      let (fs, put, kept) =
        vfs_fput-contents P d contents store w.fs (join cur_dir name) b f fs1 opened wrote in
      let args : Args = record {
        arg1 = K.path_at;
        arg2 = K.buf_at;
        arg3 = length b;
        arg4 = dv.prt_num;
      } in
      let (e, runs) =
        vsys_call-returned P libc fwrite_call K.path_at K.buf_at (length b) dv.prt_num
          (passing (join cur_dir name) b K.unset) w _ _ tt
          (fwrite-returned P libc (passing (join cur_dir name) b K.unset) args w (length b) fs
            (passing-IsOpen (join cur_dir name) b K.unset) (rw (take-length b) put)) in
      let (res, w'', reads, whole, count) =
        host_fs_file_read-contents cur_dir name b (with_fs P libc w fs)
          (Runs-IsValid P keeps v runs) unformatted plain room kept small in
      (
        with_fs P libc w fs,
        w'',
        res,
        file_write-called cur_dir name (join cur_dir name) b (pos (length b)) _ w _ path valid e
            ∙ ap (λ z. some (z, with_fs P libc w fs)) (count_lem (length b) small),
        reads,
        whole,
        count,
      )
