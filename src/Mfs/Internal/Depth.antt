-- ===== src/Mfs/Internal/Depth.antt =====
-- On a tree of directories `find_int_frag` returns, by induction on the rank.
use cs551os.Prelude.{
  ℕ, zero, suc, ◌+◌, ◌^◌, ◌≤◌, ◌<◌, ◌≡◌, ◌∙◌, ap, true, Run, Gives, Gives-if, arith,
}
use cs551os.Mfs.State.{Inode, SuperBlock}
use cs551os.Mfs.Internal.{
  Stats, Disk, visit_child, walk_directory, use_blocks, one_dir, find_int_frag, no_limit, note_frag,
}
use cs551os.Mfs.Internal.Bins.{Consistent, note_frag-Gives, weaken}
use cs551os.Mfs.Internal.Trees.{
  Tree, AllFine, walk_directory-Gives, walk_directory-counts, same_bins,
}

module _ (d : Disk) (sp : SuperBlock) (scale : ℕ) (pos : 0 < sp.s_block_size)
    (small : scale + 2 ^ scale ≤ 32) where
  module _ (tree : Tree d scale) where
    -- The entries of a directory in the tree can be visited when those of lower rank can.
    entries-AllFine :
        (visit : Inode → Stats → Run Stats) (n : ℕ) (ip : Inode)
        → tree.Live ip
        → d.is_directory ip.i_mode ≡ true
        → ((kid : Inode) (st : Stats)
            → tree.Live kid
            → tree.rank kid < tree.rank ip
            → Consistent sp n st
            → Gives (visit kid st) (Consistent sp n))
        → AllFine d sp scale pos small visit ip n
    entries-AllFine visit n ip live is_dir visits zone is_zone i m e st lt at kept c =
        let (kid, found, live_kid, lower) =
          tree.child ip zone i m e live is_dir is_zone lt at kept in
        let (st', ends, c') = visits kid st live_kid lower c in
        (st', ap (λ o. visit_child visit o st) found ∙ ends, c')

    -- The fuel bounds the rank of the inode, and so the depth of the tree below it.
    find_int_frag-Gives :
        (fuel n : ℕ) (ip : Inode) (st : Stats)
        → tree.Live ip
        → tree.rank ip < fuel
        → Consistent sp n st
        → Gives (find_int_frag d sp scale no_limit fuel ip st) (Consistent sp n)
    unfolding find_int_frag
    find_int_frag-Gives zero n ip st live lt c = absurd (omega arith)
    find_int_frag-Gives (suc fuel) n ip st live lt c =
        let visit = find_int_frag d sp scale no_limit fuel in
        let used = use_blocks d sp scale ip st in
        let fine : d.is_directory ip.i_mode ≡ true → AllFine d sp scale pos small visit ip n =
          λ is_dir.
            entries-AllFine visit n ip live is_dir (λ kid st' live_kid lower.
              find_int_frag-Gives fuel n kid st' live_kid (omega arith)) in
        Gives-if (d.is_directory ip.i_mode)
          (walk_directory d sp scale visit ip no_limit (one_dir d sp scale used))
          (note_frag no_limit sp ip used) (Consistent sp n)
          (λ is_dir.
            walk_directory-Gives d sp scale pos small visit ip n (one_dir d sp scale used)
              (fine is_dir) (same_bins c))
          (λ _.
            let (st', e, c') = note_frag-Gives sp ip n used pos (same_bins c) in
            (st', e, weaken (omega arith) c'))

    -- An inode that is no empty directory is counted.
    pub find_int_frag-counts :
        (fuel n : ℕ) (ip : Inode) (st : Stats)
        → tree.Live ip
        → tree.rank ip < fuel
        → (d.is_directory ip.i_mode ≡ true → (0 < ip.i_size) × (0 < ip.i_ndzones))
        → Consistent sp n st
        → Gives (find_int_frag d sp scale no_limit fuel ip st) (Consistent sp (n + 1))
    unfolding find_int_frag
    find_int_frag-counts zero n ip st live lt full c = absurd (omega arith)
    find_int_frag-counts (suc fuel) n ip st live lt full c =
        let visit = find_int_frag d sp scale no_limit fuel in
        let used = use_blocks d sp scale ip st in
        let fine : d.is_directory ip.i_mode ≡ true → AllFine d sp scale pos small visit ip (n + 1) =
          λ is_dir. entries-AllFine visit (n + 1) ip live is_dir (λ kid st' live_kid lower.
            find_int_frag-Gives fuel (n + 1) kid st' live_kid (omega arith)) in
        Gives-if (d.is_directory ip.i_mode)
          (walk_directory d sp scale visit ip no_limit (one_dir d sp scale used))
          (note_frag no_limit sp ip used) (Consistent sp (n + 1))
          (λ is_dir.
            walk_directory-counts d sp scale pos small visit ip n (one_dir d sp scale used)
              (full is_dir).0 (full is_dir).1 (fine is_dir) (same_bins c))
          (λ _. note_frag-Gives sp ip n used pos (same_bins c))
