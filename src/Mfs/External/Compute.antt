-- ===== src/Mfs/External/Compute.antt =====
-- `computeExtFragInFS` and `computeExtFragInInode`, which scan the bitmap with loops of their own.
use cs551os.Prelude.{
  ℕ, zero, suc, ◌+◌, ◌-◌, ◌*◌, ◌%◌, Bool, not, ◌&&◌, Option, none, some, leb, ◌==◌, if◌then◌else◌,
}
use cs551os.Mfs.State.{Inode, SuperBlock, u32, ceil_div}
use cs551os.Mfs.External.{Bitmap, Totals, Progress, returned, going, then_next, shown_totals}

abbrev pub fragment_blocks : ℕ → SuperBlock → Inode → ℕ
fragment_blocks blocks_per_zone sp rip =
    let blocks_in_last_zone = ceil_div rip.i_size sp.s_block_size % blocks_per_zone in
    if blocks_in_last_zone == 0 then 0 else blocks_per_zone - blocks_in_last_zone

unfoldable pub compute_ext_frag_in_inode : ℕ → SuperBlock → (ℕ → Option Inode) → ℕ → ℕ
compute_ext_frag_in_inode blocks_per_zone sp get_inode n = frag_of (get_inode n)
  where
    frag_of : Option Inode → ℕ
    frag_of none = 0
    frag_of (some rip) = fragment_blocks blocks_per_zone sp rip

-- The bits of the map, as an unsigned 32-bit number.
abbrev pub ext_map_bits : SuperBlock → ℕ
ext_map_bits sp = (sp.s_ninodes + 1) % u32

-- An allocated inode: there is a total only.
abbrev pub add_ext_frag : ℕ → Totals → Totals
add_ext_frag frag t = record t { total_frag_blocks = (t.total_frag_blocks + frag) % u32 }

-- One bit; the first one is ignored.
abbrev pub ext_bit : (ℕ → ℕ) → Bool → Totals → Totals
ext_bit frag is_on t =
    let v =
      if is_on && not (t.inodes_scanned == 0) then add_ext_frag (frag t.inodes_scanned) t else t in
    record v { inodes_scanned = (t.inodes_scanned + 1) % u32 }

module _ (frag : ℕ → ℕ) (m : Bitmap) (sp : SuperBlock) where
  abbrev pub ext_bit_number : (block word i : ℕ) → ℕ
  ext_bit_number block word i = (block * (m.chunks * m.chunk_bits) + word * m.chunk_bits + i) % u32

  -- The loop over the bits of a chunk, with `n` of them left.
  unfoldable pub ext_bit_loop : (n block word i : ℕ) → Totals → Progress
  ext_bit_loop zero block word i t = going t
  ext_bit_loop (suc n) block word i t =
      let rest = ext_bit_loop n block word (i + 1) (ext_bit frag (m.is_set block word i) t) in
      if leb (ext_map_bits sp) (ext_bit_number block word i) then returned t else rest

  -- The loop over the chunks of a block.
  unfoldable pub ext_word_loop : (n block word : ℕ) → Totals → Progress
  ext_word_loop zero block word t = going t
  ext_word_loop (suc n) block word t =
      then_next (ext_bit_loop m.chunk_bits block word 0 t) (ext_word_loop n block (word + 1))

  -- The loop over the blocks of the bitmap.
  unfoldable pub ext_block_loop : (n block : ℕ) → Totals → Progress
  ext_block_loop zero block t = going t
  ext_block_loop (suc n) block t =
      then_next (ext_word_loop m.chunks block 0 t) (ext_block_loop n (block + 1))

-- The counter of the do-while loop wraps around if there is no block.
unfoldable pub compute_ext_frag_in_fs :
    ℕ → SuperBlock → (ℕ → Option Inode) → Bitmap → ℕ → Option Totals
compute_ext_frag_in_fs blocks_per_zone sp get_inode m bit_blocks = shown_totals (
    ext_block_loop (compute_ext_frag_in_inode blocks_per_zone sp get_inode) m sp
      (if bit_blocks == 0 then u32 else bit_blocks) 0
      (record { inodes_scanned = 0; total_frag_blocks = 0; max_efrag = 0; min_efrag = 0 }))
