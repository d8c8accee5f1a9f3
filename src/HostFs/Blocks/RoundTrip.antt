-- ===== src/HostFs/Blocks/RoundTrip.antt =====
-- What is written to a file by blocks is read back, and no other block changes.
use templeos_loader.Prelude.{
  ℕ, ◌+◌, ◌*◌, ◌≤◌, ◌≡◌, ◌⊎◌, ◌==◌, inl, inr, refl, arith, ap, ◌∙◌, subst, ltb, leb, true, false,
  some, List, length, length-append, if◌then◌else◌,
}
use templeos_loader.HostFs.Blocks.{CFile, blk_size, grow, store, fblk_read, fblk_write}
use templeos_loader.HostFs.Blocks.Windows.{
  window, window-append, grown-cases, stored-window, stored-other, length-stored,
}

-- A read of blocks that the file and its buffer have.
fblk_read-window :
    (f : CFile) (blk cnt : ℕ)
    → 1 ≤ cnt
    → blk + cnt ≤ f.blk_cnt
    → (blk + cnt) * blk_size ≤ length f.clus_buf
    → fblk_read f (some blk) cnt
      ≡ some (
        true,
        window (blk * blk_size) (cnt * blk_size) f.clus_buf,
        record f { fblk_num = blk + cnt },
      )
unfolding fblk_read
fblk_read-window f blk cnt some_blks there long =
    let inside : ltb f.blk_cnt (blk + cnt) ≡ false = ground arith in
    let more : (cnt == 0) ≡ false = ground arith in
    let fits : leb ((blk + cnt) * blk_size) (length f.clus_buf) ≡ true = ground arith in
    rw (fblk_read, inside, more, fits) refl

-- The file behind a write.
abbrev written : (ℕ → List ℕ) → CFile → List ℕ → (blk cnt : ℕ) → CFile
written malloc f src blk cnt =
    let end = (blk + cnt) * blk_size in
    record f {
      clus_buf = store malloc (grow malloc f.clus_buf end) (blk * blk_size) src;
      size = if ltb f.size end then end else f.size;
      fblk_num = blk + cnt;
    }

fblk_write-written :
    (malloc : ℕ → List ℕ) (f : CFile) (src : List ℕ) (blk cnt : ℕ)
    → f.writable ≡ true
    → 1 ≤ cnt
    → blk + cnt ≤ f.blk_cnt
    → length src ≡ cnt * blk_size
    → fblk_write malloc f src (some blk) cnt ≡ some (true, written malloc f src blk cnt)
unfolding fblk_write
fblk_write-written malloc f src blk cnt writable some_blks there whole =
    let inside : ltb f.blk_cnt (blk + cnt) ≡ false = ground arith in
    let more : (cnt == 0) ≡ false = ground arith in
    let fits : (length src == cnt * blk_size) ≡ true = ground arith in
    rw (fblk_write, inside, writable, more, fits) refl

module _ (malloc : ℕ → List ℕ) (given : (n : ℕ) → n ≤ length (malloc n)) (f : CFile) (src : List ℕ)
    (blk cnt : ℕ) (whole : length src ≡ cnt * blk_size) where
  abbrev big : List ℕ
  big = grow malloc f.clus_buf ((blk + cnt) * blk_size)

  abbrev now : List ℕ
  now = store malloc big (blk * blk_size) src

  big-long : ((blk + cnt) * blk_size ≤ length big) × (length f.clus_buf ≤ length big)
  big-long =
      let (extra, e, long) = grown-cases malloc given f.clus_buf ((blk + cnt) * blk_size) in
      let size : length big ≡ length f.clus_buf + length extra =
        ap length e ∙ length-append f.clus_buf extra in
      (omega (arith, size, long), omega (arith, size))

  fits : blk * blk_size + length src ≤ length big
  fits = omega (arith, big-long.0, whole)

  length-now : length now ≡ length big
  length-now = length-stored malloc given big src (blk * blk_size) fits

  window-src : window (blk * blk_size) (cnt * blk_size) now ≡ src
  window-src =
      subst (λ n. window (blk * blk_size) n now ≡ src) whole
        (stored-window malloc given big src (blk * blk_size) fits)

  window-other :
      (k m : ℕ)
      → (k + m ≤ blk) ⊎ (blk + cnt ≤ k)
      → (k + m) * blk_size ≤ length f.clus_buf
      → window (k * blk_size) (m * blk_size) now ≡ window (k * blk_size) (m * blk_size) f.clus_buf
  window-other k m apart long =
      let (extra, e, enough) = grown-cases malloc given f.clus_buf ((blk + cnt) * blk_size) in
      stored-other malloc given big src (blk * blk_size) fits (k * blk_size) (m * blk_size)
        (bytes_apart apart)
      ∙ ap (λ (l : List ℕ). window (k * blk_size) (m * blk_size) l) e
      ∙ window-append (k * blk_size) (m * blk_size) f.clus_buf extra (omega (arith, long))
    where
      bytes_apart :
          (k + m ≤ blk) ⊎ (blk + cnt ≤ k)
          → (k * blk_size + m * blk_size ≤ blk * blk_size)
            ⊎ (blk * blk_size + length src ≤ k * blk_size)
      bytes_apart (inl h) = inl (omega arith)
      bytes_apart (inr h) = inr (omega (arith, whole))

  size-now : f.size ≤ length f.clus_buf → (written malloc f src blk cnt).size ≤ length now
  size-now sized = ground (arith, length-now, big-long.0, big-long.1)

-- On a host drive, where `MAlloc` gives at least as many bytes as it is asked for: `FBlkWrite` of one or more
-- blocks that a file has, which is open for writing, succeeds; `FBlkRead` of these blocks then gives
-- what was written; every other run of blocks that the file and its buffer had reads as before; the
-- file goes on behind the blocks; and its size stays within its buffer.
pub fblk_write-fblk_read :
    (malloc : ℕ → List ℕ) (f : CFile) (src : List ℕ) (blk cnt : ℕ)
    → ((n : ℕ) → n ≤ length (malloc n))
    → f.writable ≡ true
    → 1 ≤ cnt
    → blk + cnt ≤ f.blk_cnt
    → length src ≡ cnt * blk_size
    → f.size ≤ length f.clus_buf
    → (f' f'' : CFile) × (fblk_write malloc f src (some blk) cnt ≡ some (true, f'))
      × (fblk_read f' (some blk) cnt ≡ some (true, src, f''))
      × ((k m : ℕ)
          → (k + m ≤ blk) ⊎ (blk + cnt ≤ k)
          → 1 ≤ m
          → k + m ≤ f.blk_cnt
          → (k + m) * blk_size ≤ length f.clus_buf
          → (bytes : List ℕ) × (g g' : CFile) × (fblk_read f (some k) m ≡ some (true, bytes, g))
            × (fblk_read f' (some k) m ≡ some (true, bytes, g')))
      × (f'.fblk_num ≡ blk + cnt)
      × (f'.size ≤ length f'.clus_buf)
fblk_write-fblk_read malloc f src blk cnt given writable some_blks there whole sized = (
  written malloc f src blk cnt,
  record (written malloc f src blk cnt) { fblk_num = blk + cnt },
  fblk_write-written malloc f src blk cnt writable some_blks there whole,
  fblk_read-window (written malloc f src blk cnt) blk cnt some_blks there (
        omega (
          arith,
          length-now malloc given f src blk cnt whole,
          (big-long malloc given f src blk cnt whole).0,
        ))
      ∙ ap
          (λ (l : List ℕ).
            some (true, l, record (written malloc f src blk cnt) { fblk_num = blk + cnt }))
          (window-src malloc given f src blk cnt whole),
  λ k m apart more there' long. (
    window (k * blk_size) (m * blk_size) f.clus_buf,
    record f { fblk_num = k + m },
    record (written malloc f src blk cnt) { fblk_num = k + m },
    fblk_read-window f k m more there' long,
    fblk_read-window (written malloc f src blk cnt) k m more there' (
          omega (
            arith,
            length-now malloc given f src blk cnt whole,
            (big-long malloc given f src blk cnt whole).1,
          ))
        ∙ ap
            (λ (l : List ℕ).
              some (true, l, record (written malloc f src blk cnt) { fblk_num = k + m }))
            (window-other malloc given f src blk cnt whole k m apart long),
  ),
  refl,
  size-now malloc given f src blk cnt whole sized,
)
