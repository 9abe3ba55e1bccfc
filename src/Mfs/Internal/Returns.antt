-- ===== src/Mfs/Internal/Returns.antt =====
-- When `fs_get_int_frag` returns, and what it prints.
use cs551os.Prelude.{
  ℕ, zero, suc, ◌+◌, ◌/◌, ◌^◌, ◌≤◌, ◌<◌, ◌≡◌, ◌∙◌, ap, refl, true, false, Run, done, fault, Gives,
  ◌==◌, arith, length,
}
use native.Mathlib.Nat.{zero-div, zero-mod, le-div_iff_mul-le, mul_comm, div-le_of_le-mul}
use cs551os.Mfs.State.{Inode, SuperBlock, ceil_div}
use cs551os.Mfs.Internal.{
  Stats, Disk, num_frag_bins, sub_ℕ, while_blocks, direct_zone, walk_directory, use_blocks, one_dir,
  find_int_frag, in_range, no_limit, fs_get_int_frag, first_stats,
}
use cs551os.Mfs.Internal.Bins.{sum, first_stats-Consistent}
use cs551os.Mfs.Internal.Trees.{Tree}
use cs551os.Mfs.Internal.Depth.{find_int_frag-counts}
use cs551os.Mfs.Internal.Limits.{find_int_frag-Follows}

-- On a tree of directories of a lower rank than the fuel, from a file or from a directory that is
-- not empty, with a zone size for which no shift is of 32 or more, and with sums and counts that
-- are less than 2 ^ 31 when they are taken without bounds, `fs_get_int_frag` returns: no access
-- fails, nothing overflows, the fuel is enough, and the statistics are those without bounds. What
-- it prints is consistent: the eight bins hold as many entries as were counted, the average lies
-- between the smallest and the largest fragmentation, and the largest is less than a block.
pub fs_get_int_frag_total :
    (d : Disk) (sp : SuperBlock) (tree : Tree d sp.s_log_zone_size) (fuel : ℕ) (ip : Inode)
    → 0 < sp.s_block_size
    → sp.s_log_zone_size + 2 ^ sp.s_log_zone_size ≤ 32
    → tree.Live ip
    → tree.rank ip < fuel
    → (d.is_directory ip.i_mode ≡ true → (0 < ip.i_size) × (0 < ip.i_ndzones))
    → ((st : Stats)
        → find_int_frag d sp sp.s_log_zone_size no_limit fuel ip (first_stats sp) ≡ done st
        → in_range st ≡ true)
    → Gives (fs_get_int_frag d sp fuel ip) (λ r.
      (find_int_frag d sp sp.s_log_zone_size no_limit fuel ip (first_stats sp) ≡ done r.stats)
      × (length r.stats.frag_stat ≡ num_frag_bins)
      × (sum r.stats.frag_stat ≡ r.stats.num_int_frag_entries)
      × (r.stats.min_frag_val ≤ r.avg_frag)
      × (r.avg_frag ≤ r.stats.max_frag_val)
      × (r.stats.max_frag_val < sp.s_block_size))
unfolding fs_get_int_frag
fs_get_int_frag_total d sp tree fuel ip pos small live enough full fits =
    let (st, e, c) =
      find_int_frag-counts d sp sp.s_log_zone_size pos small tree fuel 0 ip (first_stats sp) live
        enough full (first_stats-Consistent sp pos) in
    let (checked, _) =
      find_int_frag-Follows d sp sp.s_log_zone_size fuel ip (first_stats sp) st e (fits st e) in
    let counted : 0 < st.num_int_frag_entries = omega (arith, c.entries) in
    let some_entries : (st.num_int_frag_entries == 0) ≡ false = ground arith in
    (
      record {
        stats = st;
        num_files = sub_ℕ st.num_int_frag_entries st.num_dirs;
        avg_frag = st.tot_int_frag / st.num_int_frag_entries;
      },
      rw (checked, some_entries) refl,
      (
        e,
        c.bins,
        c.counted,
        (le-div_iff_mul-le counted).1
            (omega (arith, c.least, mul_comm st.num_int_frag_entries st.min_frag_val)),
        div-le_of_le-mul st.num_int_frag_entries c.most,
        c.below,
      ),
    )

while_blocks_none :
    (n i : ℕ) (body : ℕ → Stats × ℕ → Run (Stats × ℕ)) (st : Stats)
    → while_blocks n i body (st, 0) ≡ done (st, 0)
unfolding while_blocks
while_blocks_none zero i body st = refl
while_blocks_none (suc n) i body st = refl

ceil_div_zero : (b : ℕ) → ceil_div 0 b ≡ 0
ceil_div_zero b = rw (zero-div b, zero-mod b) refl

walk_directory_empty :
    (d : Disk) (sp : SuperBlock) (scale : ℕ) (visit : Inode → Stats → Run Stats) (ip : Inode)
    (st : Stats)
    → ip.i_size ≡ 0
    → walk_directory d sp scale visit ip in_range st ≡ done st
unfolding walk_directory
walk_directory_empty d sp scale visit ip st empty =
    let none : ceil_div ip.i_size sp.s_block_size ≡ 0 =
      ap (λ s. ceil_div s sp.s_block_size) empty ∙ ceil_div_zero sp.s_block_size in
    rw (none, while_blocks_none ip.i_ndzones 0 (direct_zone d sp scale visit ip in_range) st) refl

-- From a directory of size zero, with zones or without, no entry is counted, and the average
-- divides by zero: `fs_get_int_frag` does not return a report.
pub fs_get_int_frag-empty :
    (d : Disk) (sp : SuperBlock) (fuel : ℕ) (ip : Inode)
    → d.is_directory ip.i_mode ≡ true
    → ip.i_size ≡ 0
    → fs_get_int_frag d sp (suc fuel) ip ≡ fault
unfolding fs_get_int_frag find_int_frag
fs_get_int_frag-empty d sp fuel ip is_dir empty =
    let used =
      one_dir d sp sp.s_log_zone_size (use_blocks d sp sp.s_log_zone_size ip (first_stats sp)) in
    let none : ceil_div ip.i_size sp.s_block_size ≡ 0 =
      ap (λ s. ceil_div s sp.s_block_size) empty ∙ ceil_div_zero sp.s_block_size in
    let fits : in_range used ≡ true = rw none refl in
    rw
      (
        is_dir,
        fits,
        walk_directory_empty d sp sp.s_log_zone_size
            (find_int_frag d sp sp.s_log_zone_size in_range fuel) ip used empty,
      )
      refl
