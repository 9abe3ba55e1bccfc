-- ===== src/Mfs/State.antt =====
-- What prj_3/src/mfs/misc.c uses of MINIX's structures, and the block cache behind it.
use cs551os.Prelude.{ℕ, ◌+◌, ◌/◌, ◌%◌, ◌==◌, ◌≡◌, if◌then◌else◌}

-- A block in the cache: its device and its number.
pub record Buf : Type 0 where
  pub b_dev : ℕ
  pub b_blocknr : ℕ

-- Of `struct inode`. The array `i_zone` has the direct zones, then the two indirect ones.
pub record Inode : Type 0 where
  pub i_dev : ℕ
  pub i_size : ℕ
  pub i_mode : ℕ
  pub i_num : ℕ
  pub i_ndzones : ℕ
  pub i_nindirs : ℕ
  pub i_zone : ℕ → ℕ

-- Of `struct super_block`.
pub record SuperBlock : Type 0 where
  pub s_log_zone_size : ℕ
  pub s_block_size : ℕ
  pub s_ninodes : ℕ

-- MINIX's block cache: `get_block` of a device and a number, `rd_indir` of an indirect block.
pub record Cache : Type 0 where
  pub get_block : ℕ → ℕ → Buf
  pub rd_indir : Buf → ℕ → ℕ

-- `get_block` gives the block that it is asked for.
pub record Honest (c : Cache) : Type 0 where
  pub dev : (d b : ℕ) → (c.get_block d b).b_dev ≡ d
  pub number : (d b : ℕ) → (c.get_block d b).b_blocknr ≡ b

-- 2 ^ 32, the values of `u32_t`.
abbrev pub u32 : ℕ
u32 = 4294967296

-- `ceil((double) size / block_size)` of a 32-bit size.
abbrev pub ceil_div : ℕ → ℕ → ℕ
ceil_div size block_size = size / block_size + (if size % block_size == 0 then 0 else 1)
