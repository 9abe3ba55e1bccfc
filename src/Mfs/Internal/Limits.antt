-- ===== src/Mfs/Internal/Limits.antt =====
-- The walk with signed 32-bit counters is the walk without bounds, as long as its sums fit.
use cs551os.Prelude.{
  ℕ, zero, suc, ◌+◌, ◌*◌, ◌/◌, ◌^◌, ◌≡◌, ◌∙◌, ap, subst, true, false, Bool, Option, none, some,
  List, [], ◌∷◌, Run, done, fault, out_of_fuel, ◌>>=◌, >>=-eq-done, ◌==◌, if◌then◌else◌, arith,
}
use cs551os.Mfs.State.{Inode, SuperBlock, ceil_div}
use cs551os.Mfs.Internal.{
  Stats, Disk, bump, num_frag_bins, int_frag_val, in_range, no_limit, counted, note_frag,
  while_blocks, skipped, visit_child, shifted, entry_loop, dir_block, get_frag_for_dir_zone,
  get_frag_sin_ind_zone, get_frag_dbl_ind_zone, direct_zone, walk_directory, use_blocks, one_dir,
  find_int_frag,
}

abbrev pub Fits : Stats → Type 0
Fits st = in_range st ≡ true

-- Where the first run ends with something fitting, the second ends with the same, and it fitted
-- before.
abbrev Follows : {X : Type 0} → (X → Type 0) → Type 0 → Run X → Run X → Type 0
Follows {X} ok before r r' = (y : X) → r ≡ done y → ok y → (r' ≡ done y) × before

Follows-done : {X : Type 0} (ok : X → Type 0) (x : X) → Follows ok (ok x) (done x) (done x)
Follows-done ok x y e fits = let same : y ≡ x = cc in (e, subst ok same fits)

Follows->>= :
    {X Y : Type 0} (ok : X → Type 0) (ok' : Y → Type 0) (before : Type 0) (r r' : Run X)
    (f f' : X → Run Y)
    → Follows ok before r r'
    → ((x : X) → Follows ok' (ok x) (f x) (f' x))
    → Follows ok' before (r >>= f) (r' >>= f')
Follows->>= ok ok' before r r' f f' h k y e fits =
    let (x, first, rest) = >>=-eq-done r f e in
    let (rest', fits') = k x y rest fits in
    let (first', b) = h x first fits' in (ap (λ s. s >>= f') first' ∙ rest', b)

Follows-if :
    {X : Type 0} (ok : X → Type 0) (before : Type 0) (c : Bool) (r r' s s' : Run X)
    → Follows ok before r r'
    → Follows ok before s s'
    → Follows ok before (if c then r else s) (if c then r' else s')
Follows-if ok before true r r' s s' h k = h
Follows-if ok before false r r' s s' h k = k

-- The same run twice, which does not touch the statistics.
Follows-same :
    {X Y : Type 0} (ok : Y → Type 0) (before : Type 0) (r : Run X) (f f' : X → Run Y)
    → ((x : X) → Follows ok before (f x) (f' x))
    → Follows ok before (r >>= f) (r >>= f')
Follows-same ok before (done x) f f' h = h x
Follows-same ok before fault f f' h = λ y e fits. absurd cc
Follows-same ok before out_of_fuel f f' h = λ y e fits. absurd cc

abbrev Fits₁ : Stats × ℕ → Type 0
Fits₁ x = Fits x.0

counted-Follows :
    (before : Type 0) (st : Stats)
    → (Fits st → before)
    → Follows Fits before (counted no_limit st) (counted in_range st)
counted-Follows before st back y e fits =
    let same : y ≡ st = cc in let here : Fits st = subst Fits same fits in (rw here e, back here)

note_frag-Follows :
    (sp : SuperBlock) (ip : Inode) (st : Stats)
    → Follows Fits (Fits st) (note_frag no_limit sp ip st) (note_frag in_range sp ip st)
unfolding note_frag
note_frag-Follows sp ip st =
    Follows-same Fits (Fits st)
      (bump st.frag_stat (int_frag_val sp ip * num_frag_bins / sp.s_block_size)) _ _
      (λ bins. counted-Follows (Fits st) _ (λ here. ground (arith, here)))

while_blocks-Follows :
    (n i : ℕ) (body body' : ℕ → Stats × ℕ → Run (Stats × ℕ)) (x : Stats × ℕ)
    → ((j : ℕ) (z : Stats × ℕ) → Follows Fits₁ (Fits₁ z) (body j z) (body' j z))
    → Follows Fits₁ (Fits₁ x) (while_blocks n i body x) (while_blocks n i body' x)
unfolding while_blocks
while_blocks-Follows zero i body body' x each = Follows-done Fits₁ x
while_blocks-Follows (suc n) i body body' x each =
    Follows-if Fits₁ (Fits₁ x) (x.1 == 0) _ _ _ _ (Follows-done Fits₁ x) (
      Follows->>= Fits₁ Fits₁ (Fits₁ x) (body i x) (body' i x) _ _ (each i x)
        (λ y. while_blocks-Follows n (i + 1) body body' y each))

module _ (d : Disk) (sp : SuperBlock) (scale : ℕ) where
  module _ (visit visit' : Inode → Stats → Run Stats)
      (each : (kid : Inode) (st : Stats) → Follows Fits (Fits st) (visit kid st) (visit' kid st))
      (ip : Inode) where
    visit_child-Follows :
        (o : Option Inode) (st : Stats)
        → Follows Fits (Fits st) (visit_child visit o st) (visit_child visit' o st)
    visit_child-Follows none st = λ y e fits. absurd cc
    visit_child-Follows (some kid) st = each kid st

    entry_loop-Follows :
        (es : List ℕ) (dc : ℕ) (st : Stats)
        → Follows Fits
            (Fits st)
            (entry_loop d sp scale visit ip es dc st)
            (entry_loop d sp scale visit' ip es dc st)
    unfolding entry_loop
    entry_loop-Follows [] dc st = Follows-done Fits st
    entry_loop-Follows (e ∷ es) dc st =
        Follows-if Fits (Fits st) (skipped ip dc e) _ _ _ _ (entry_loop-Follows es (dc + 1) st) (
          Follows->>= Fits Fits (Fits st) _ _ _ _ (visit_child-Follows (d.get_inode e) st)
            (entry_loop-Follows es (dc + 1)))

    dir_block-Follows :
        (zone i : ℕ) (x : Stats × ℕ)
        → Follows Fits₁
            (Fits₁ x)
            (dir_block d sp scale visit ip zone i x)
            (dir_block d sp scale visit' ip zone i x)
    unfolding dir_block
    dir_block-Follows zone i (st, blk_cnt) =
        Follows-same Fits₁ (Fits st) (shifted scale zone i) _ _ (λ b.
          Follows->>= Fits Fits₁ (Fits st) _ _ _ _
            (entry_loop-Follows (d.dir_entries (d.cache.get_block ip.i_dev b)) 0 st)
            (λ st'. Follows-done Fits₁ (st', _)))

    dir_zone-Follows :
        (zone : ℕ) (x : Stats × ℕ)
        → Follows Fits₁
            (Fits₁ x)
            (get_frag_for_dir_zone d sp scale visit ip zone x)
            (get_frag_for_dir_zone d sp scale visit' ip zone x)
    unfolding get_frag_for_dir_zone
    dir_zone-Follows zone x = Follows-if Fits₁ (Fits₁ x) (x.1 == 0) _ _ _ _ (Follows-done Fits₁ x) (
        Follows-if Fits₁ (Fits₁ x) (zone == 0) _ _ _ _ (Follows-done Fits₁ x)
          (while_blocks-Follows (2 ^ scale) 0 _ _ x (dir_block-Follows zone)))

    sin_ind_zone-Follows :
        (zone : ℕ) (x : Stats × ℕ)
        → Follows Fits₁
            (Fits₁ x)
            (get_frag_sin_ind_zone d sp scale visit ip zone x)
            (get_frag_sin_ind_zone d sp scale visit' ip zone x)
    unfolding get_frag_sin_ind_zone
    sin_ind_zone-Follows zone x =
        Follows-if Fits₁ (Fits₁ x) (zone == 0) _ _ _ _ (Follows-done Fits₁ x)
          (while_blocks-Follows ip.i_nindirs 0 _ _ x (λ j. dir_zone-Follows _))

    dbl_ind_zone-Follows :
        (zone : ℕ) (x : Stats × ℕ)
        → Follows Fits₁
            (Fits₁ x)
            (get_frag_dbl_ind_zone d sp scale visit ip zone x)
            (get_frag_dbl_ind_zone d sp scale visit' ip zone x)
    unfolding get_frag_dbl_ind_zone
    dbl_ind_zone-Follows zone x =
        Follows-if Fits₁ (Fits₁ x) (zone == 0) _ _ _ _ (Follows-done Fits₁ x)
          (while_blocks-Follows ip.i_nindirs 0 _ _ x (λ j. sin_ind_zone-Follows _))

    direct_zone-Follows :
        (i : ℕ) (x : Stats × ℕ)
        → Follows Fits₁
            (Fits₁ x)
            (direct_zone d sp scale visit ip no_limit i x)
            (direct_zone d sp scale visit' ip in_range i x)
    unfolding direct_zone
    direct_zone-Follows i (st, blk_cnt) =
        Follows->>= Fits Fits₁ (Fits st) _ _ _ _ (note_frag-Follows sp ip st)
          (λ st'. dir_zone-Follows (ip.i_zone i) (st', blk_cnt))

    walk_directory-Follows :
        (st : Stats)
        → Follows Fits
            (Fits st)
            (walk_directory d sp scale visit ip no_limit st)
            (walk_directory d sp scale visit' ip in_range st)
    unfolding walk_directory
    walk_directory-Follows st =
        Follows->>= Fits₁ Fits (Fits st) _ _ _ _
          (while_blocks-Follows ip.i_ndzones 0 _ _ (st, ceil_div ip.i_size sp.s_block_size)
            direct_zone-Follows)
          (λ x.
            Follows->>= Fits₁ Fits (Fits₁ x) _ _ _ _
              (Follows-if Fits₁ (Fits₁ x) (x.1 == 0) _ _ _ _ (Follows-done Fits₁ x)
                (sin_ind_zone-Follows (ip.i_zone ip.i_ndzones) x))
              (λ y.
                Follows->>= Fits₁ Fits (Fits₁ y) _ _ _ _
                  (Follows-if Fits₁ (Fits₁ y) (y.1 == 0) _ _ _ _ (Follows-done Fits₁ y)
                    (dbl_ind_zone-Follows (ip.i_zone (ip.i_ndzones + 1)) y))
                  (λ z. Follows-done Fits z.0)))

  -- The recursion.
  pub find_int_frag-Follows :
      (fuel : ℕ) (ip : Inode) (st : Stats)
      → Follows Fits
          (Fits st)
          (find_int_frag d sp scale no_limit fuel ip st)
          (find_int_frag d sp scale in_range fuel ip st)
  unfolding find_int_frag
  find_int_frag-Follows zero ip st = λ y e fits. absurd cc
  find_int_frag-Follows (suc fuel) ip st =
      let used = use_blocks d sp scale ip st in
      let back : Fits used → Fits st = λ here. ground (arith, here) in
      Follows-if Fits (Fits st) (d.is_directory ip.i_mode) _ _ _ _
        (Follows->>= Fits Fits (Fits st) _ _ _ _
          (counted-Follows (Fits st) (one_dir d sp scale used) (λ here. ground (arith, here)))
          (walk_directory-Follows (find_int_frag d sp scale no_limit fuel)
            (find_int_frag d sp scale in_range fuel) (find_int_frag-Follows fuel) ip))
        (λ y e fits. let (e', here) = note_frag-Follows sp ip used y e fits in (e', back here))
