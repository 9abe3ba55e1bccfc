-- ===== src/Mfs/Tests.antt =====
-- The theorems about the file system's part at concrete inputs.
use cs551os.Prelude.{
  ℕ, ◌+◌, ◌*◌, ◌%◌, ◌≡◌, refl, Bool, Option, some, ltb, ◌==◌, if◌then◌else◌, arith, take,
}
use cs551os.Mfs.State.{Inode, SuperBlock, Cache, Honest, ceil_div}
use cs551os.Mfs.Blocks.{fs_get_inode_blocks}
use cs551os.Mfs.Blocks.Spec.{file_blocks, expand, AllValid, joined}
use cs551os.Mfs.Blocks.Ranges.{fs_get_inode_blocks_lem}
use cs551os.Mfs.External.{Bitmap, frag_in_inode, fs_getfrag}
use cs551os.Mfs.External.{frag_in_fs}
use cs551os.Mfs.External.Compute.{compute_ext_frag_in_fs}
use cs551os.Mfs.External.Versions.{total_of, frag_in_fs-compute_ext_frag_in_fs}
use cs551os.Mfs.External.Sum.{Marks, sum_frag, max_frag}
use cs551os.Mfs.External.Report.{fs_getfrag_lem}

-- A cache whose indirect blocks have the zone 30 first, and no other.
abbrev a_cache : Cache
a_cache = record {
  get_block = λ d b. record { b_dev = d; b_blocknr = b };
  rd_indir = λ bp i. if i == 0 then 30 else 0;
}

a_cache-Honest : Honest a_cache
a_cache-Honest = record { dev = λ d b. refl; number = λ d b. refl }

-- Zones of two blocks; three direct zones with a hole between them, then an indirect one.
abbrev an_inode : Inode
an_inode = record {
  i_dev = 3;
  i_size = 5000;
  i_mode = 0;
  i_num = 7;
  i_ndzones = 3;
  i_nindirs = 2;
  i_zone = λ i. if i == 1 then 0 else if i == 3 then 20 else 7 + i;
}

abbrev a_super : SuperBlock
a_super = record { s_log_zone_size = 1; s_block_size = 1024; s_ninodes = 5 }

a_file-AllValid : AllValid (file_blocks a_cache 1 an_inode)
unfolding joined
a_file-AllValid = ground arith

fs_get_inode_blocks_lem_example :
    let (ranges, total) = fs_get_inode_blocks a_cache a_super an_inode in
    (total ≡ ceil_div 5000 1024) × (expand ranges ≡ take total (file_blocks a_cache 1 an_inode))
fs_get_inode_blocks_lem_example =
    fs_get_inode_blocks_lem a_super an_inode a_cache-Honest a_file-AllValid

-- Inodes 1 and 2 of five are allocated.
abbrev allocated : ℕ → Bool
allocated j = ltb j 3

abbrev a_bitmap : Bitmap
a_bitmap = record {
  chunks = 1;
  chunk_bits = 8;
  is_set = λ block word i. allocated (block * (1 * 8) + word * 8 + i);
}

a_bitmap-Marks : Marks a_bitmap allocated
a_bitmap-Marks = record { marked = λ block word i lt lt'. refl }

abbrev inodes : ℕ → Option Inode
inodes n = some an_inode

fs_getfrag_lem_example :
    fs_getfrag a_super inodes a_bitmap 1
    ≡ some (record {
      inodes_scanned = 6;
      total_frag_blocks = sum_frag allocated (frag_in_inode 2 a_super inodes) 6 0 % 4294967296;
      max_efrag = max_frag allocated (frag_in_inode 2 a_super inodes) 6 0;
      min_efrag = 0;
    })
fs_getfrag_lem_example =
    fs_getfrag_lem a_super inodes 1 a_bitmap-Marks (omega arith) (omega arith) (omega arith)

-- A file system whose last inode has the last bit of the bitmap.
abbrev full_super : SuperBlock
full_super = record { s_log_zone_size = 1; s_block_size = 1024; s_ninodes = 7 }

frag_in_fs-compute_ext_frag_in_fs_example :
    total_of (frag_in_fs 2 a_super inodes a_bitmap 1)
    ≡ total_of (compute_ext_frag_in_fs 2 a_super inodes a_bitmap 1)
frag_in_fs-compute_ext_frag_in_fs_example =
    frag_in_fs-compute_ext_frag_in_fs 2 a_super inodes 1 a_bitmap-Marks (omega arith) (omega arith)
