-- ===== src/Mfs/External.antt =====
-- The external fragmentation: `fs_getfrag`, `FraginFS` and `FragInInode`.
pub mod Sum
pub mod Laws
pub mod Report
pub mod Compute
pub mod Versions
use cs551os.Prelude.{
  ℕ, zero, suc, ◌+◌, ◌-◌, ◌*◌, ◌%◌, ◌^◌, max, Bool, not, ◌&&◌, Option, none, some, ltb, leb, ◌==◌,
  if◌then◌else◌,
}
use cs551os.Mfs.State.{Inode, SuperBlock, u32, ceil_div}

-- The inode bitmap: its chunks, in the byte order of the machine, of `chunk_bits` bits each, with
-- `chunks` of them in a block; whether a bit of one is set.
pub record Bitmap : Type 0 where
  pub chunks : ℕ
  pub chunk_bits : ℕ
  pub is_set : (block word i : ℕ) → Bool

-- The globals and locals that the scan changes.
pub record Totals : Type 0 where
  pub inodes_scanned : ℕ
  pub total_frag_blocks : ℕ
  pub max_efrag : ℕ
  pub min_efrag : ℕ

-- The scan has met the end of the bitmap and returned, or goes on.
pub data Progress : Type 0 where
  returned : Totals → Progress
  going : Totals → Progress

abbrev pub then_next : Progress → (Totals → Progress) → Progress
then_next (returned t) f = returned t
then_next (going t) f = f t

-- The blocks at the end of the last zone of an inode that it does not use; `get_inode` may fail.
abbrev pub unused_blocks : ℕ → SuperBlock → Inode → ℕ
unused_blocks blocks_per_zone sp rip =
    let blocks_in_last_zone = ceil_div rip.i_size sp.s_block_size % blocks_per_zone in
    if blocks_in_last_zone == 0 then 0 else blocks_per_zone - blocks_in_last_zone

unfoldable pub frag_in_inode : ℕ → SuperBlock → (ℕ → Option Inode) → ℕ → ℕ
frag_in_inode blocks_per_zone sp get_inode n = frag_of (get_inode n)
  where
    frag_of : Option Inode → ℕ
    frag_of none = 0
    frag_of (some rip) = unused_blocks blocks_per_zone sp rip

-- An allocated inode in `FraginFS`, with its unused blocks: unsigned 32-bit sums.
abbrev pub add_frag : ℕ → Totals → Totals
add_frag frag t = record t {
  total_frag_blocks = (t.total_frag_blocks + frag) % u32;
  max_efrag = if ltb t.max_efrag frag then frag else t.max_efrag;
  min_efrag = if ltb frag t.min_efrag then frag else t.min_efrag;
}

abbrev pub scan_bit : (ℕ → Totals → Totals) → (ℕ → ℕ) → Bool → Totals → Totals
scan_bit add frag is_on t =
    let v = if is_on && not (t.inodes_scanned == 0) then add (frag t.inodes_scanned) t else t in
    record v { inodes_scanned = (t.inodes_scanned + 1) % u32 }

abbrev pub map_bits : SuperBlock → ℕ
map_bits sp = (sp.s_ninodes + 1) % u32

module _ (add : ℕ → Totals → Totals) (frag : ℕ → ℕ) (m : Bitmap) (sp : SuperBlock) where
  -- The bit number `b`.
  abbrev pub bit_number : (block word i : ℕ) → ℕ
  bit_number block word i = (block * (m.chunks * m.chunk_bits) + word * m.chunk_bits + i) % u32

  -- The loop over the bits of a chunk, with `n` of them left.
  unfoldable pub bit_loop : (n block word i : ℕ) → Totals → Progress
  bit_loop zero block word i t = going t
  bit_loop (suc n) block word i t =
      let rest = bit_loop n block word (i + 1) (scan_bit add frag (m.is_set block word i) t) in
      if leb (map_bits sp) (bit_number block word i) then returned t else rest

  -- The loop over the chunks of a block.
  unfoldable pub word_loop : (n block word : ℕ) → Totals → Progress
  word_loop zero block word t = going t
  word_loop (suc n) block word t =
      then_next (bit_loop m.chunk_bits block word 0 t) (word_loop n block (word + 1))

  -- The loop over the blocks of the bitmap.
  unfoldable pub block_loop : (n block : ℕ) → Totals → Progress
  block_loop zero block t = going t
  block_loop (suc n) block t = then_next (word_loop m.chunks block 0 t) (block_loop n (block + 1))

  -- All of it. The counter of the do-while loop wraps around if there is no block.
  unfoldable pub scan_bitmap : ℕ → Progress
  scan_bitmap bit_blocks =
      block_loop (if bit_blocks == 0 then u32 else bit_blocks) 0
        (record { inodes_scanned = 0; total_frag_blocks = 0; max_efrag = 0; min_efrag = 0 })

-- The totals that are printed as the scan returns, or none.
abbrev pub shown_totals : Progress → Option Totals
shown_totals (returned t) = some t
shown_totals (going t) = none

module _ (blocks_per_zone : ℕ) (sp : SuperBlock) (get_inode : ℕ → Option Inode) (m : Bitmap) where
  unfoldable pub frag_in_fs : ℕ → Option Totals
  frag_in_fs bit_blocks =
      shown_totals
        (scan_bitmap add_frag (frag_in_inode blocks_per_zone sp get_inode) m sp bit_blocks)

-- The handler of REQ_EXTFRAG.
unfoldable pub fs_getfrag : SuperBlock → (ℕ → Option Inode) → Bitmap → ℕ → Option Totals
fs_getfrag sp get_inode m bit_blocks = frag_in_fs (2 ^ sp.s_log_zone_size) sp get_inode m bit_blocks
