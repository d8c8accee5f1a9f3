-- ===== src/HostFs/Blocks/Tests.antt =====
-- A file of three blocks, of which one is written.
use templeos_loader.Prelude.{
  ℕ, zero, suc, ap, ◌+◌, ◌*◌, ◌/◌, ◌≤◌, ◌≡◌, ◌⊎◌, refl, arith, true, some, List, length, replicate,
  text,
}
use templeos_loader.HostFs.Blocks.{CFile, fblk_read, fblk_write}
use templeos_loader.HostFs.Blocks.RoundTrip.{fblk_write-fblk_read}

-- Its last block is short.
abbrev opened : CFile
opened = record {
  clus_buf = replicate 1030 7;
  blk_cnt = 3;
  fblk_num = 0;
  size = 1030;
  writable = true;
  full_name = text "C:/d/a";
}

length-zeros : (n : ℕ) → length {A = ℕ} (replicate n 0) ≡ n
length-zeros zero = refl
length-zeros (suc n) = ap suc (length-zeros n)

-- A heap whose blocks have a multiple of 8 bytes.
abbrev malloc : ℕ → List ℕ
malloc n = replicate ((n + 7) / 8 * 8) 0

malloc_enough : (n : ℕ) → n ≤ length (malloc n)
malloc_enough n = omega (arith, length-zeros ((n + 7) / 8 * 8))

abbrev block : List ℕ
block = replicate 512 9

fblk_write-fblk_read_example :
    (f' f'' : CFile) × (fblk_write malloc opened block (some 2) 1 ≡ some (true, f'))
    × (fblk_read f' (some 2) 1 ≡ some (true, block, f''))
    × ((k m : ℕ)
        → (k + m ≤ 2) ⊎ (3 ≤ k)
        → 1 ≤ m
        → k + m ≤ 3
        → (k + m) * 512 ≤ length opened.clus_buf
        → (bytes : List ℕ) × (g g' : CFile) × (fblk_read opened (some k) m ≡ some (true, bytes, g))
          × (fblk_read f' (some k) m ≡ some (true, bytes, g')))
    × (f'.fblk_num ≡ 3)
    × (f'.size ≤ length f'.clus_buf)
fblk_write-fblk_read_example =
    fblk_write-fblk_read malloc opened block 2 1 malloc_enough refl (omega arith) (omega arith) refl
      (omega arith)
