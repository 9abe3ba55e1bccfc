-- ===== src/Mfs/Blocks.antt =====
-- The blocks of a file: `fs_get_inode_blocks` and the walks over its zones.
pub mod Spec
pub mod Scan
pub mod Ranges
use cs551os.Prelude.{
  ℕ, zero, suc, ◌+◌, ◌-◌, ◌*◌, ◌%◌, ◌^◌, Bool, true, List, [], ◌∷◌, ◌++◌, ℤ, pos, negsuc, minus_one,
  eq_int, ◌==◌, if◌then◌else◌,
}
use cs551os.Mfs.State.{Buf, Inode, SuperBlock, Cache, u32, ceil_div}

-- The globals of the walk, and the ranges of blocks printed so far.
pub record Walk : Type 0 where
  pub eof_reached : Bool
  pub block_count : ℕ
  pub last_block_num : ℤ
  pub starting_block_num : ℤ
  pub shown : List (ℤ × ℤ)

-- `last_block_num == bp->b_blocknr - 1`, which compares 32-bit unsigned numbers.
abbrev pub as_u32 : ℤ → ℕ
as_u32 (pos n) = n % u32
as_u32 (negsuc n) = u32 - 1 - n

abbrev pub follows : ℤ → ℕ → Bool
follows last b = as_u32 last == (b + (u32 - 1)) % u32

-- Prints the range that ends, but for the very first block, and begins the next one.
abbrev pub new_range : ℕ → Walk → Walk
new_range b w = record w {
  shown =
      if eq_int w.starting_block_num minus_one
      then w.shown
      else w.shown ++ ((w.starting_block_num, w.last_block_num) ∷ []);
  starting_block_num = pos b;
}

abbrev pub take_block : ℕ → Walk → Walk
take_block b w =
    let v = if follows w.last_block_num b then w else new_range b w in
    record v {
      last_block_num = pos b;
      block_count = w.block_count - 1;
      eof_reached = if w.block_count - 1 == 0 then true else w.eof_reached;
    }

-- One block that `get_block` gave; one of another device is passed over.
abbrev pub visit : Inode → Buf → Walk → Walk
visit ip bp w = if bp.b_dev == ip.i_dev then take_block bp.b_blocknr w else w

-- `for (i = …; i < n && !EOF_reached; i++) body`, with `n` turns left.
unfoldable pub until_eof : ℕ → ℕ → (ℕ → Walk → Walk) → Walk → Walk
until_eof zero i body w = w
until_eof (suc n) i body w =
    let rest = until_eof n (i + 1) body (body i w) in if w.eof_reached then w else rest

-- `(zone << scale) + i` in 32 bits.
abbrev pub block_of : ℕ → ℕ → ℕ → ℕ
block_of scale zone i = (zone * 2 ^ scale % u32 + i) % u32

module _ (c : Cache) (scale : ℕ) (ip : Inode) where
  -- `for (i = …; i < (1 << scale) && block_count != 0; i++)`, with `n` turns left.
  unfoldable pub zone_loop : ℕ → ℕ → ℕ → Walk → Walk
  zone_loop zero i zone w = w
  zone_loop (suc n) i zone w =
      let rest =
        zone_loop n (i + 1) zone (visit ip (c.get_block ip.i_dev (block_of scale zone i)) w) in
      if w.block_count == 0 then w else rest

  -- The results OK and -1 of the three functions are dropped by all their callers.
  unfoldable pub get_dir_zone : ℕ → Walk → Walk
  get_dir_zone zone w =
      if w.block_count == 0
      then record w { eof_reached = true }
      else if zone == 0
      then w
      else zone_loop (2 ^ scale) 0 zone w

  unfoldable pub get_sin_ind_zone : ℕ → Walk → Walk
  get_sin_ind_zone zone w =
      let bp = c.get_block ip.i_dev (block_of scale zone 0) in
      if zone == 0 then w else until_eof ip.i_nindirs 0 (λ i. get_dir_zone (c.rd_indir bp i)) w

  unfoldable pub get_dbl_ind_zone : ℕ → Walk → Walk
  get_dbl_ind_zone zone w =
      let bp = c.get_block ip.i_dev (block_of scale zone 0) in
      if zone == 0 then w else until_eof ip.i_nindirs 0 (λ i. get_sin_ind_zone (c.rd_indir bp i)) w

  -- The direct zones, then the single and the double indirect one.
  unfoldable pub walk_zones : Walk → Walk
  walk_zones w =
      let direct = until_eof ip.i_ndzones 0 (λ i. get_dir_zone (ip.i_zone i)) w in
      let single = get_sin_ind_zone (ip.i_zone ip.i_ndzones) direct in
      let double = get_dbl_ind_zone (ip.i_zone (ip.i_ndzones + 1)) single in
      if direct.eof_reached then direct else if single.eof_reached then single else double

-- The globals as `fs_get_inode_blocks` sets them.
abbrev pub first_walk : ℕ → Walk
first_walk total = record {
  eof_reached = total == 0;
  block_count = total;
  last_block_num = negsuc 1;
  starting_block_num = minus_one;
  shown = [];
}

-- The ranges of blocks that it prints, and the number of blocks.
unfoldable pub fs_get_inode_blocks : Cache → SuperBlock → Inode → List (ℤ × ℤ) × ℕ
fs_get_inode_blocks c sp ip =
    let total = ceil_div ip.i_size sp.s_block_size in
    let w = walk_zones c sp.s_log_zone_size ip (first_walk total) in
    (w.shown ++ ((w.starting_block_num, w.last_block_num) ∷ []), total)
