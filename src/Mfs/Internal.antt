-- ===== src/Mfs/Internal.antt =====
-- The internal fragmentation: `fs_get_int_frag`, `find_int_frag` and the walks over a directory.
pub mod Bins
pub mod Laws
pub mod Trees
pub mod Depth
pub mod Limits
pub mod Returns
mod Tests
use cs551os.Prelude.{
  ℕ, zero, suc, ◌+◌, ◌-◌, ◌*◌, ◌/◌, ◌%◌, ◌^◌, min, max, Bool, true, false, not, ◌&&◌, ◌||◌, Option,
  none, some, List, [], ◌∷◌, ltb, leb, ◌==◌, if◌then◌else◌, get_elem?, set, replicate, ℤ, pos,
  negsuc, Run, done, fault, out_of_fuel, access, ◌>>=◌,
}
use cs551os.Mfs.State.{Buf, Inode, SuperBlock, Cache, u32, ceil_div}

abbrev pub num_frag_bins : ℕ
num_frag_bins = 8

-- The statistics that the globals hold, of which those of the type `long` and `int` are checked
-- when they grow.
pub record Stats : Type 0 where
  pub tot_int_frag : ℕ
  pub num_int_frag_entries : ℕ
  pub min_frag_val : ℕ
  pub max_frag_val : ℕ
  pub num_dirs : ℕ
  pub frag_stat : List ℕ
  pub tot_blocks_used : ℕ

-- MINIX's part: the block cache, the inode numbers of the entries of a directory's block,
-- `get_inode`, and `(i_mode & I_TYPE) == I_DIRECTORY`.
pub record Disk : Type 0 where
  pub cache : Cache
  pub dir_entries : Buf → List ℕ
  pub get_inode : ℕ → Option Inode
  pub is_directory : ℕ → Bool

-- The bytes that the last block of an inode does not use.
abbrev pub int_frag_val : SuperBlock → Inode → ℕ
int_frag_val sp ip =
    let used_bytes = ip.i_size % sp.s_block_size in
    if used_bytes == 0 then 0 else sp.s_block_size - used_bytes

-- `frag_stat[i]++`
unfoldable pub bump : List ℕ → ℕ → Run (List ℕ)
bump bins i = do n ← access (get_elem? bins i); done (set bins i (n + 1))

-- The sums and counters are signed 32-bit numbers; no bin holds more than all entries.
abbrev pub long_limit : ℕ
long_limit = 2147483648

abbrev pub in_range : Stats → Bool
in_range st =
    ltb st.tot_int_frag long_limit
    && (ltb st.num_int_frag_entries long_limit
        && (ltb st.num_dirs long_limit && ltb st.tot_blocks_used long_limit))

-- The same without bounds, for the comparison.
abbrev pub no_limit : Stats → Bool
no_limit st = true

-- An overflow is undefined behaviour.
abbrev pub counted : (Stats → Bool) → Stats → Run Stats
counted fits st = if fits st then done st else fault

-- One entry of the statistics.
unfoldable pub note_frag : (Stats → Bool) → SuperBlock → Inode → Stats → Run Stats
note_frag fits sp ip st = do
  let v = int_frag_val sp ip
  bins ← bump st.frag_stat (v * num_frag_bins / sp.s_block_size)
  counted fits (record st {
    tot_int_frag = st.tot_int_frag + v;
    num_int_frag_entries = st.num_int_frag_entries + 1;
    min_frag_val = min v st.min_frag_val;
    max_frag_val = max v st.max_frag_val;
    frag_stat = bins;
  })

-- `for (i = …; i < n && *blk_cnt > 0; i++) body`, with `n` turns left, over the statistics and
-- `*blk_cnt`.
unfoldable pub while_blocks :
    ℕ → ℕ → (ℕ → Stats × ℕ → Run (Stats × ℕ)) → Stats × ℕ → Run (Stats × ℕ)
while_blocks zero i body x = done x
while_blocks (suc n) i body x =
    let rest = (do y ← body i x; while_blocks n (i + 1) body y) in if x.1 == 0 then done x else rest

-- The entries of one block, `dc` of them passed: the first two, free ones and the directory itself
-- are skipped.
abbrev pub skipped : Inode → ℕ → ℕ → Bool
skipped ip dc e = ltb dc 2 || (ltb e 2 || e == ip.i_num)

-- `find_int_frag` reads through the NULL of a failed `get_inode`.
abbrev pub visit_child : (Inode → Stats → Run Stats) → Option Inode → Stats → Run Stats
visit_child visit none st = fault
visit_child visit (some child) st = visit child st

-- `zone_num << scale + i`, which shifts by `scale + i`; by 32 or more it is undefined.
abbrev pub shifted : ℕ → ℕ → ℕ → Run ℕ
shifted scale zone i = if ltb (scale + i) 32 then done (zone * 2 ^ (scale + i) % u32) else fault

module _ (d : Disk) (sp : SuperBlock) (scale : ℕ) where
  -- With `visit` as the recursive call of `find_int_frag`.
  module _ (visit : Inode → Stats → Run Stats) (ip : Inode) where
    unfoldable pub entry_loop : List ℕ → ℕ → Stats → Run Stats
    entry_loop [] dc st = done st
    entry_loop (e ∷ es) dc st =
        let next = entry_loop es (dc + 1) st in
        let child = (do st' ← visit_child visit (d.get_inode e) st; entry_loop es (dc + 1) st') in
        if skipped ip dc e then next else child

    unfoldable pub dir_block : ℕ → ℕ → Stats × ℕ → Run (Stats × ℕ)
    dir_block zone i (st, blk_cnt) = do
      block_num ← shifted scale zone i
      st' ← entry_loop (d.dir_entries (d.cache.get_block ip.i_dev block_num)) 0 st
      done (st', blk_cnt - 1)

    unfoldable pub get_frag_for_dir_zone : ℕ → Stats × ℕ → Run (Stats × ℕ)
    get_frag_for_dir_zone zone x =
        if x.1 == 0
        then done x
        else if zone == 0
        then done x
        else while_blocks (2 ^ scale) 0 (dir_block zone) x

    unfoldable pub get_frag_sin_ind_zone : ℕ → Stats × ℕ → Run (Stats × ℕ)
    get_frag_sin_ind_zone zone x =
        let bp = d.cache.get_block ip.i_dev (zone * 2 ^ scale % u32) in
        if zone == 0
        then done x
        else while_blocks ip.i_nindirs 0 (λ i. get_frag_for_dir_zone (d.cache.rd_indir bp i)) x

    unfoldable pub get_frag_dbl_ind_zone : ℕ → Stats × ℕ → Run (Stats × ℕ)
    get_frag_dbl_ind_zone zone x =
        let bp = d.cache.get_block ip.i_dev (zone * 2 ^ scale % u32) in
        if zone == 0
        then done x
        else while_blocks ip.i_nindirs 0 (λ i. get_frag_sin_ind_zone (d.cache.rd_indir bp i)) x

    -- A direct zone: the directory is entered into the statistics once for each.
    unfoldable pub direct_zone : (Stats → Bool) → ℕ → Stats × ℕ → Run (Stats × ℕ)
    direct_zone fits i (st, blk_cnt) = do
      st' ← note_frag fits sp ip st
      get_frag_for_dir_zone (ip.i_zone i) (st', blk_cnt)

    -- `if (*blk_cnt > 0) f`
    abbrev pub if_blocks : (Stats × ℕ → Run (Stats × ℕ)) → Stats × ℕ → Run (Stats × ℕ)
    if_blocks f x = if x.1 == 0 then done x else f x

    unfoldable pub walk_directory : (Stats → Bool) → Stats → Run Stats
    walk_directory fits st = do
      x ← while_blocks ip.i_ndzones 0 (direct_zone fits) (st, ceil_div ip.i_size sp.s_block_size)
      y ← if_blocks (get_frag_sin_ind_zone (ip.i_zone ip.i_ndzones)) x
      z ← if_blocks (get_frag_dbl_ind_zone (ip.i_zone (ip.i_ndzones + 1))) y
      done z.0

  abbrev pub use_blocks : Inode → Stats → Stats
  use_blocks ip st = record st {
    tot_blocks_used = st.tot_blocks_used + ceil_div ip.i_size sp.s_block_size;
  }

  abbrev pub one_dir : Stats → Stats
  one_dir st = record st { num_dirs = st.num_dirs + 1 }

  -- With fuel for the depth of the recursion.
  unfoldable pub find_int_frag : (Stats → Bool) → ℕ → Inode → Stats → Run Stats
  find_int_frag fits zero ip st = out_of_fuel
  find_int_frag fits (suc fuel) ip st =
      let directory = (do
        st' ← counted fits (one_dir (use_blocks ip st))
        walk_directory (find_int_frag fits fuel) ip fits st') in
      if d.is_directory ip.i_mode then directory else note_frag fits sp ip (use_blocks ip st)

-- What is printed besides the statistics: the files and the average.
pub record Report : Type 0 where
  pub stats : Stats
  pub num_files : ℤ
  pub avg_frag : ℕ

abbrev pub first_stats : SuperBlock → Stats
first_stats sp = record {
  tot_int_frag = 0;
  num_int_frag_entries = 0;
  min_frag_val = sp.s_block_size;
  max_frag_val = 0;
  num_dirs = 0;
  frag_stat = replicate num_frag_bins 0;
  tot_blocks_used = 0;
}

-- a - b, as an int.
abbrev pub sub_ℕ : ℕ → ℕ → ℤ
sub_ℕ a b = if leb b a then pos (a - b) else negsuc (b - a - 1)

-- The average divides by the number of entries, and traps on none.
abbrev pub report : Stats → Run Report
report st =
    if st.num_int_frag_entries == 0
    then fault
    else done (record {
      stats = st;
      num_files = sub_ℕ st.num_int_frag_entries st.num_dirs;
      avg_frag = st.tot_int_frag / st.num_int_frag_entries;
    })

unfoldable pub fs_get_int_frag : Disk → SuperBlock → ℕ → Inode → Run Report
fs_get_int_frag d sp fuel ip = do
  st ← find_int_frag d sp sp.s_log_zone_size in_range fuel ip (first_stats sp)
  report st
