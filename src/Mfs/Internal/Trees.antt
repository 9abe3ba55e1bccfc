-- ===== src/Mfs/Internal/Trees.antt =====
-- On a tree of directories `find_int_frag` returns, with consistent statistics: the steps.
use cs551os.Prelude.{
  ℕ, zero, suc, ◌+◌, ◌*◌, ◌/◌, ◌%◌, ◌^◌, ◌≤◌, ◌<◌, ◌≡◌, refl, true, false, some, get_elem?, Run,
  done, ◌>>=◌, Gives, Gives->>=, Gives-if, ◌==◌, if◌then◌else◌, arith,
}
use native.Mathlib.Nat.{div-add-mod}
use cs551os.Mfs.State.{Inode, SuperBlock, u32, ceil_div}
use cs551os.Mfs.Internal.{
  Stats, Disk, skipped, get_frag_for_dir_zone, get_frag_sin_ind_zone, get_frag_dbl_ind_zone,
  direct_zone, if_blocks, walk_directory, no_limit, note_frag,
}
use cs551os.Mfs.Internal.Bins.{Consistent, note_frag-Gives, weaken}
use cs551os.Mfs.Internal.Laws.{
  Fine, held_by, while_blocks-counts, while_blocks-Gives, get_frag_for_dir_zone-Gives,
  get_frag_sin_ind_zone-Gives, get_frag_dbl_ind_zone-Gives,
}

-- The zones of an inode.
pub data ZoneOf (d : Disk) (scale : ℕ) (ip : Inode) : ℕ → Type 0 where
  direct : {j : ℕ} → j < ip.i_ndzones → ZoneOf d scale ip (ip.i_zone j)
  single :
      {j : ℕ}
      → j < ip.i_nindirs
      → ZoneOf d scale ip (
          d.cache.rd_indir
            (d.cache.get_block ip.i_dev (ip.i_zone ip.i_ndzones * 2 ^ scale % u32))
            j)
  double :
      {j k : ℕ}
      → j < ip.i_nindirs
      → k < ip.i_nindirs
      → ZoneOf d scale ip (
          d.cache.rd_indir
            (d.cache.get_block ip.i_dev (
              d.cache.rd_indir
                (d.cache.get_block ip.i_dev (ip.i_zone (ip.i_ndzones + 1) * 2 ^ scale % u32))
                k
              * 2 ^ scale
              % u32))
            j)

-- A tree of directories: each entry that is followed has an inode in the tree, of a lower rank.
pub record Tree (d : Disk) (scale : ℕ) : Type 1 where
  pub Live : Inode → Type 0
  pub rank : Inode → ℕ
  pub child :
      (ip : Inode) (zone i dc e : ℕ)
      → Live ip
      → d.is_directory ip.i_mode ≡ true
      → ZoneOf d scale ip zone
      → i < 2 ^ scale
      → get_elem? (d.dir_entries (d.cache.get_block ip.i_dev (zone * 2 ^ (scale + i) % u32))) dc
        ≡ some e
      → skipped ip dc e ≡ false
      → (kid : Inode) × (d.get_inode e ≡ some kid) × Live kid × (rank kid < rank ip)

ceil_positive : (q r b n : ℕ) → b * q + r ≡ n → 0 < n → 0 < q + (if r == 0 then 0 else 1)
ceil_positive zero r b n whole p = ground arith
ceil_positive (suc q) r b n whole p = omega arith

ceil_div-positive : (size b : ℕ) → 0 < size → 0 < ceil_div size b
ceil_div-positive size b p = ceil_positive (size / b) (size % b) b size (div-add-mod size b) p

-- `Consistent` does not speak of the directories and the blocks.
pub same_bins :
    {sp : SuperBlock} {n dirs blocks : ℕ} {st : Stats}
    → Consistent sp n st
    → Consistent sp n (record st { num_dirs = dirs; tot_blocks_used = blocks })
same_bins c = record {
  bins = c.bins;
  counted = c.counted;
  entries = c.entries;
  below = c.below;
  most = c.most;
  least = c.least;
}

module _ (d : Disk) (sp : SuperBlock) (scale : ℕ) (pos : 0 < sp.s_block_size)
    (small : scale + 2 ^ scale ≤ 32) where
  module _ (visit : Inode → Stats → Run Stats) (ip : Inode) where
    -- Every entry of the directory can be visited.
    abbrev pub AllFine : ℕ → Type 0
    AllFine n = (zone : ℕ) → ZoneOf d scale ip zone → Fine d sp scale n visit ip zone

    direct_zone-Gives :
        (n m i : ℕ) (x : Stats × ℕ)
        → m ≤ n + 1
        → AllFine m
        → i < ip.i_ndzones
        → Consistent sp n x.0
        → Gives (direct_zone d sp scale visit ip no_limit i x) (λ y. Consistent sp m y.0)
    unfolding direct_zone
    direct_zone-Gives n m i (st, cnt) le fine lt c =
        Gives->>= (note_frag no_limit sp ip st)
          (λ st'. get_frag_for_dir_zone d sp scale visit ip (ip.i_zone i) (st', cnt))
          (Consistent sp (n + 1)) (λ y. Consistent sp m y.0) (note_frag-Gives sp ip n st pos c)
          (λ st' c'.
            get_frag_for_dir_zone-Gives d sp scale m visit ip (ip.i_zone i) (st', cnt) small
              (fine (ip.i_zone i) (direct lt)) (weaken le c'))

    if_blocks-Gives :
        (n : ℕ) (f : Stats × ℕ → Run (Stats × ℕ)) (x : Stats × ℕ)
        → (Consistent sp n x.0 → Gives (f x) (λ y. Consistent sp n y.0))
        → Consistent sp n x.0
        → Gives (if_blocks d sp scale visit ip f x) (λ y. Consistent sp n y.0)
    if_blocks-Gives n f x keeps c =
        Gives-if (x.1 == 0) (done x) (f x) (λ y. Consistent sp n y.0) (λ _. (x, refl, c))
          (λ _. keeps c)

    -- The indirect zones, after the direct ones.
    indirect-Gives :
        (n : ℕ) (x : Stats × ℕ)
        → AllFine n
        → Consistent sp n x.0
        → Gives
            (do
              y ←
                  if_blocks d sp scale visit ip
                    (get_frag_sin_ind_zone d sp scale visit ip (ip.i_zone ip.i_ndzones))
                    x
              z ←
                  if_blocks d sp scale visit ip
                    (get_frag_dbl_ind_zone d sp scale visit ip (ip.i_zone (ip.i_ndzones + 1)))
                    y
              done z.0)
            (Consistent sp n)
    indirect-Gives n x fine c =
        let (y, e, c') =
          if_blocks-Gives n (get_frag_sin_ind_zone d sp scale visit ip (ip.i_zone ip.i_ndzones)) x
            (get_frag_sin_ind_zone-Gives d sp scale n visit ip (ip.i_zone ip.i_ndzones) x small
              (λ j lt. fine (held_by d sp scale n visit ip (ip.i_zone ip.i_ndzones) j) (single lt)))
            c in
        let (z, e', c'') =
          if_blocks-Gives n
            (get_frag_dbl_ind_zone d sp scale visit ip (ip.i_zone (ip.i_ndzones + 1))) y
            (get_frag_dbl_ind_zone-Gives d sp scale n visit ip (ip.i_zone (ip.i_ndzones + 1)) y
              small
              (λ j k lt lt'.
                fine
                  (held_by d sp scale n visit ip
                    (held_by d sp scale n visit ip (ip.i_zone (ip.i_ndzones + 1)) k) j)
                  (double lt lt')))
            c' in
        (z.0, rw (e, e') refl, c'')

    pub walk_directory-Gives :
        (n : ℕ) (st : Stats)
        → AllFine n
        → Consistent sp n st
        → Gives (walk_directory d sp scale visit ip no_limit st) (Consistent sp n)
    unfolding walk_directory
    walk_directory-Gives n st fine c =
        let (x, e, c') =
          while_blocks-Gives (λ y. Consistent sp n y.0) ip.i_ndzones 0
            (direct_zone d sp scale visit ip no_limit) (st, ceil_div ip.i_size sp.s_block_size)
            (λ j y lt. direct_zone-Gives n n j y (omega arith) fine (omega arith)) c in
        let (st', e', c'') = indirect-Gives n x fine c' in (st', rw e e', c'')

    -- A directory that is not empty is counted itself.
    pub walk_directory-counts :
        (n : ℕ) (st : Stats)
        → 0 < ip.i_size
        → 0 < ip.i_ndzones
        → AllFine (n + 1)
        → Consistent sp n st
        → Gives (walk_directory d sp scale visit ip no_limit st) (Consistent sp (n + 1))
    unfolding walk_directory
    walk_directory-counts n st has_size has_zones fine c =
        let (x, e, c') =
          while_blocks-counts (λ y. Consistent sp n y.0) (λ y. Consistent sp (n + 1) y.0)
            ip.i_ndzones 0 (direct_zone d sp scale visit ip no_limit)
            (st, ceil_div ip.i_size sp.s_block_size)
            (ceil_div-positive ip.i_size sp.s_block_size has_size) has_zones
            (λ j y lt. direct_zone-Gives n (n + 1) j y (omega arith) fine (omega arith))
            (λ j y lt. direct_zone-Gives (n + 1) (n + 1) j y (omega arith) fine (omega arith)) c in
        let (st', e', c'') = indirect-Gives (n + 1) x fine c' in (st', rw e e', c'')
