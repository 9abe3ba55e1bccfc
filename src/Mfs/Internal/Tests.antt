-- ===== src/Mfs/Internal/Tests.antt =====
-- A directory with one file, and the statistics of it.
use cs551os.Prelude.{
  ℕ, zero, suc, ◌<◌, ◌≤◌, ◌≡◌, refl, true, false, some, none, [], ◌∷◌, if◌then◌else◌, ◌==◌, arith,
  Gives, length, get_elem?, fault, done, Run, subst,
}
use cs551os.Mfs.State.{Inode, SuperBlock}
use cs551os.Mfs.Internal.{
  Disk, Stats, skipped, fs_get_int_frag, num_frag_bins, in_range, no_limit, find_int_frag,
  note_frag, walk_directory, while_blocks, direct_zone, get_frag_for_dir_zone, bump, dir_block,
  entry_loop, get_frag_sin_ind_zone, get_frag_dbl_ind_zone, first_stats,
}
use cs551os.Mfs.Internal.Bins.{sum}
use cs551os.Mfs.Internal.Trees.{Tree}
use cs551os.Mfs.Internal.Returns.{fs_get_int_frag_total, fs_get_int_frag-empty}

abbrev a_super : SuperBlock
a_super = record { s_log_zone_size = 0; s_block_size = 64; s_ninodes = 8 }

abbrev a_file : Inode
a_file = record {
  i_dev = 1;
  i_size = 100;
  i_mode = 0;
  i_num = 5;
  i_ndzones = 7;
  i_nindirs = 4;
  i_zone = λ _. 3;
}

abbrev a_directory : Inode
a_directory = record {
  i_dev = 1;
  i_size = 64;
  i_mode = 1;
  i_num = 4;
  i_ndzones = 1;
  i_nindirs = 0;
  i_zone = λ _. 9;
}

abbrev an_empty_directory : Inode
an_empty_directory = record a_directory { i_size = 0 }

-- The directory's block: `.`, `..`, the file, and a free entry.
abbrev a_disk : Disk
a_disk = record {
  cache = record {
    get_block = λ dev b. record { b_dev = dev; b_blocknr = b };
    rd_indir = λ _ _. 0;
  };
  dir_entries = λ _. 4 ∷ 1 ∷ 5 ∷ 0 ∷ [];
  get_inode = λ e. if e == 5 then some a_file else none;
  is_directory = λ mode. mode == 1;
}

data Live : Inode → Type 0 where
  the_file : Live a_file
  the_directory : Live a_directory

child_of :
    (ip : Inode) (m e : ℕ)
    → Live ip
    → a_disk.is_directory ip.i_mode ≡ true
    → get_elem? (4 ∷ 1 ∷ 5 ∷ 0 ∷ []) m ≡ some e
    → skipped ip m e ≡ false
    → (kid : Inode) × (a_disk.get_inode e ≡ some kid) × Live kid × (kid.i_mode < ip.i_mode)
child_of ip m e the_file is_dir at kept = absurd cc
child_of ip zero e the_directory is_dir at kept = absurd cc
child_of ip (suc zero) e the_directory is_dir at kept = absurd cc
child_of ip (suc (suc zero)) e the_directory is_dir at kept =
    (a_file, ground arith, the_file, omega arith)
child_of ip (suc (suc (suc zero))) e the_directory is_dir at kept = absurd (ground arith)
child_of ip (suc (suc (suc (suc m)))) e the_directory is_dir at kept = absurd cc

abbrev a_tree : Tree a_disk 0
a_tree = record {
  Live = Live;
  rank = λ ip. ip.i_mode;
  child = λ ip zone i m e live is_dir is_zone lt. child_of ip m e live is_dir;
}

abbrev stats_of : Run Stats → Stats
stats_of (done st) = st
stats_of r = first_stats a_super

abbrev exact : Run Stats
exact = find_int_frag a_disk a_super 0 no_limit 2 a_directory (first_stats a_super)

exact_fits : in_range (stats_of exact) ≡ true
unfolding find_int_frag note_frag walk_directory while_blocks direct_zone get_frag_for_dir_zone bump
    dir_block entry_loop get_frag_sin_ind_zone get_frag_dbl_ind_zone
exact_fits = refl

fs_get_int_frag_total_example : Gives (fs_get_int_frag a_disk a_super 2 a_directory) (λ r.
    (exact ≡ done r.stats)
    × (length r.stats.frag_stat ≡ num_frag_bins)
    × (sum r.stats.frag_stat ≡ r.stats.num_int_frag_entries)
    × (r.stats.min_frag_val ≤ r.avg_frag)
    × (r.avg_frag ≤ r.stats.max_frag_val)
    × (r.stats.max_frag_val < a_super.s_block_size))
fs_get_int_frag_total_example =
    fs_get_int_frag_total a_disk a_super a_tree 2 a_directory (omega arith) (omega arith)
      the_directory (omega arith) (λ _. (omega arith, omega arith))
      (λ st e. subst (λ r. in_range (stats_of r) ≡ true) e exact_fits)

fs_get_int_frag-empty_example : fs_get_int_frag a_disk a_super 2 an_empty_directory ≡ fault
fs_get_int_frag-empty_example = fs_get_int_frag-empty a_disk a_super 1 an_empty_directory refl refl
