-- ===== src/Mfs/Blocks/Scan.antt =====
-- The walk over the zones visits the blocks of the file in order until the count is 0.
use cs551os.Prelude.{
  ℕ, zero, suc, ◌+◌, ◌^◌, ◌≡◌, ◌∙◌, sym, ap, refl, inl, inr, true, false, List, [], ◌∷◌, ◌++◌, ◌==◌,
  if◌then◌else◌, Bool-cases, if_true, if_false, arith,
}
use cs551os.Mfs.State.{Inode, Cache, Honest}
use cs551os.Mfs.Blocks.{
  Walk, take_block, visit, until_eof, block_of, zone_loop, get_dir_zone, get_sin_ind_zone,
  get_dbl_ind_zone, walk_zones,
}
use cs551os.Mfs.Blocks.Spec.{joined, zone_blocks, sin_blocks, dbl_blocks, file_blocks}

-- Takes blocks while some are left to count.
unfoldable pub scan : List ℕ → Walk → Walk
scan [] w = w
scan (b ∷ bs) w = let rest = scan bs (take_block b w) in if w.block_count == 0 then w else rest

-- `EOF_reached` says that no block is left.
abbrev pub Marked : Walk → Type 0
Marked w = w.eof_reached ≡ (w.block_count == 0)

-- Of a marked walk, `f` takes the blocks `bs`.
abbrev Scans : (Walk → Walk) → List ℕ → Type 0
Scans f bs = (w : Walk) → Marked w → f w ≡ scan bs w

take_block-Marked :
    (b : ℕ) (w : Walk) → Marked w → (w.block_count == 0) ≡ false → Marked (take_block b w)
take_block-Marked b w m some_left = ground arith

pub scan-done : (bs : List ℕ) (w : Walk) → (w.block_count == 0) ≡ true → scan bs w ≡ w
unfolding scan
scan-done [] w e = refl
scan-done (b ∷ bs) w e = rw e

pub scan-Marked : (bs : List ℕ) (w : Walk) → Marked w → Marked (scan bs w)
unfolding scan
scan-Marked [] w m = m
scan-Marked (b ∷ bs) w m = elim (Bool-cases (w.block_count == 0)) [
  | inl e ↦ rw e m
  | inr e ↦ rw e (scan-Marked bs (take_block b w) (take_block-Marked b w m e))
]

scan-append : (xs bs : List ℕ) (w : Walk) → scan (xs ++ bs) w ≡ scan bs (scan xs w)
unfolding scan
scan-append [] bs w = refl
scan-append (x ∷ xs) bs w = elim (Bool-cases (w.block_count == 0)) [
  | inl e ↦ rw (e, scan-done bs w e)
  | inr e ↦ rw (e, scan-append xs bs (take_block x w))
]

-- A loop up to the end of the file takes the blocks of each of its turns.
until_eof-Scans :
    (n i : ℕ) (f : ℕ → Walk → Walk) (g : ℕ → List ℕ)
    → ((j : ℕ) → Scans (f j) (g j))
    → Scans (until_eof n i f) (joined n i g)
unfolding until_eof joined scan
until_eof-Scans zero i f g h w m = refl
until_eof-Scans (suc n) i f g h w m = elim (Bool-cases (w.block_count == 0)) [
  | inl e ↦ if_true w _ (m ∙ e) ∙ sym (scan-done (g i ++ joined n (i + 1) g) w e)
  | inr e ↦
      if_false w _ (m ∙ e)
      ∙ ap (until_eof n (i + 1) f) (h i w m)
      ∙ until_eof-Scans n (i + 1) f g h (scan (g i) w) (scan-Marked (g i) w m)
      ∙ sym (scan-append (g i) (joined n (i + 1) g) w)
]

-- Nothing is left to take once the end is marked, before or after `xs`.
stop_at_eof :
    (xs ys : List ℕ) (v : Walk)
    → Marked v
    → (if v.eof_reached
        then v
        else if (scan xs v).eof_reached
        then scan xs v
        else scan ys (scan xs v))
      ≡ scan ys (scan xs v)
stop_at_eof xs ys v m = elim (Bool-cases (v.block_count == 0)) [
  | inl e ↦ if_true v _ (m ∙ e) ∙ sym (scan-done ys v e) ∙ ap (scan ys) (sym (scan-done xs v e))
  | inr e ↦ if_false v _ (m ∙ e) ∙ elim (Bool-cases ((scan xs v).block_count == 0)) [
    | inl e' ↦ if_true (scan xs v) _ (scan-Marked xs v m ∙ e') ∙ sym (scan-done ys (scan xs v) e')
    | inr e' ↦ if_false (scan xs v) _ (scan-Marked xs v m ∙ e')
  ]
]

module _ {c : Cache} (honest : Honest c) (scale : ℕ) (ip : Inode) where
  visit-block : (b : ℕ) (w : Walk) → visit ip (c.get_block ip.i_dev b) w ≡ take_block b w
  visit-block b w = rw (honest.dev ip.i_dev b, honest.number ip.i_dev b) (ground arith)

  zone_loop-scan :
      (n i zone : ℕ) (w : Walk)
      → zone_loop c scale ip n i zone w ≡ scan (joined n i (λ j. block_of scale zone j ∷ [])) w
  unfolding zone_loop joined scan
  zone_loop-scan zero i zone w = refl
  zone_loop-scan (suc n) i zone w = rw (
    visit-block (block_of scale zone i) w,
    zone_loop-scan n (i + 1) zone (take_block (block_of scale zone i) w),
  )

  get_dir_zone-Scans :
      (zone : ℕ) → Scans (get_dir_zone c scale ip zone) (zone_blocks c scale ip zone)
  unfolding get_dir_zone scan
  get_dir_zone-Scans zone w m = elim (Bool-cases (w.block_count == 0)) [
    | inl e ↦
        rw (e, scan-done (zone_blocks c scale ip zone) w e)
          (λ i. record w { eof_reached = sym (m ∙ e) i })
    | inr e ↦ elim (Bool-cases (zone == 0)) [
      | inl hole ↦ rw (e, hole)
      | inr data_ ↦ rw (e, data_, zone_loop-scan (2 ^ scale) 0 zone w)
    ]
  ]

  get_sin_ind_zone-Scans :
      (zone : ℕ) → Scans (get_sin_ind_zone c scale ip zone) (sin_blocks c scale ip zone)
  unfolding get_sin_ind_zone scan
  get_sin_ind_zone-Scans zone w m = elim (Bool-cases (zone == 0)) [
    | inl hole ↦ rw hole
    | inr there ↦ rw there (until_eof-Scans _ 0 _ _ (λ j. get_dir_zone-Scans _) w m)
  ]

  get_dbl_ind_zone-Scans :
      (zone : ℕ) → Scans (get_dbl_ind_zone c scale ip zone) (dbl_blocks c scale ip zone)
  unfolding get_dbl_ind_zone scan
  get_dbl_ind_zone-Scans zone w m = elim (Bool-cases (zone == 0)) [
    | inl hole ↦ rw hole
    | inr there ↦ rw there (until_eof-Scans _ 0 _ _ (λ j. get_sin_ind_zone-Scans _) w m)
  ]

  pub walk_zones-Scans : Scans (walk_zones c scale ip) (file_blocks c scale ip)
  unfolding walk_zones
  walk_zones-Scans w m =
      let direct = joined ip.i_ndzones 0 (λ i. zone_blocks c scale ip (ip.i_zone i)) in
      let single = sin_blocks c scale ip (ip.i_zone ip.i_ndzones) in
      let double = dbl_blocks c scale ip (ip.i_zone (ip.i_ndzones + 1)) in
      let v = scan direct w in
      let u = scan single v in
      let mv = scan-Marked direct w m in
      let mu = scan-Marked single v mv in
      rw
        (
          until_eof-Scans ip.i_ndzones 0 _ _ (λ i. get_dir_zone-Scans (ip.i_zone i)) w m,
          get_sin_ind_zone-Scans (ip.i_zone ip.i_ndzones) v mv,
          get_dbl_ind_zone-Scans (ip.i_zone (ip.i_ndzones + 1)) u mu,
          scan-append direct (single ++ double) w,
          scan-append single double v,
        )
        (stop_at_eof single double v mv)
