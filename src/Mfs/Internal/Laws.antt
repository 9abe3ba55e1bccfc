-- ===== src/Mfs/Internal/Laws.antt =====
-- The walks over the zones of a directory keep the statistics consistent, when the visits of the
-- entries do.
use cs551os.Prelude.{
  ℕ, zero, suc, ◌+◌, ◌-◌, ◌*◌, ◌%◌, ◌^◌, ◌≤◌, ◌<◌, ◌≡◌, ◌∙◌, ap, refl, false, some, List, [], ◌∷◌,
  get_elem?, Run, done, fault, ◌>>=◌, Gives, Gives->>=, Gives-if, if_true, if_false, lt→ltb, subst,
  ◌==◌, if◌then◌else◌, arith,
}
use cs551os.Mfs.State.{Inode, SuperBlock, u32}
use cs551os.Mfs.Internal.{
  Stats, Disk, visit_child, skipped, shifted, while_blocks, entry_loop, dir_block,
  get_frag_for_dir_zone, get_frag_sin_ind_zone, get_frag_dbl_ind_zone,
}
use cs551os.Mfs.Internal.Bins.{Consistent}

-- A loop keeps what each of its rounds keeps.
pub while_blocks-Gives :
    (Q : Stats × ℕ → Type 0) (n i : ℕ) (body : ℕ → Stats × ℕ → Run (Stats × ℕ)) (x : Stats × ℕ)
    → ((j : ℕ) (y : Stats × ℕ) → j < i + n → Q y → Gives (body j y) Q)
    → Q x
    → Gives (while_blocks n i body x) Q
unfolding while_blocks
while_blocks-Gives Q zero i body x each q = (x, refl, q)
while_blocks-Gives Q (suc n) i body x each q =
    Gives-if (x.1 == 0) (done x) (body i x >>= while_blocks n (i + 1) body) Q (λ _. (x, refl, q))
      (λ _.
        Gives->>= (body i x) (while_blocks n (i + 1) body) Q Q (each i x (omega arith) q)
          (λ y q'. while_blocks-Gives Q n (i + 1) body y (λ j z lt. each j z (omega arith)) q'))

-- The same, with a first round that establishes what the others keep.
pub while_blocks-counts :
    (P Q : Stats × ℕ → Type 0) (n i : ℕ) (body : ℕ → Stats × ℕ → Run (Stats × ℕ)) (x : Stats × ℕ)
    → 0 < x.1
    → 0 < n
    → ((j : ℕ) (y : Stats × ℕ) → j < i + n → P y → Gives (body j y) Q)
    → ((j : ℕ) (y : Stats × ℕ) → j < i + n → Q y → Gives (body j y) Q)
    → P x
    → Gives (while_blocks n i body x) Q
unfolding while_blocks
while_blocks-counts P Q zero i body x more lt first each p = absurd (omega arith)
while_blocks-counts P Q (suc n) i body x more lt first each p =
    let (y, e, q) = first i x (omega arith) p in
    let (z, e', q') = while_blocks-Gives Q n (i + 1) body y (λ j w lt'. each j w (omega arith)) q in
    let goes : (x.1 == 0) ≡ false = ground arith in
    (
      z,
      if_false (done x) (body i x >>= while_blocks n (i + 1) body) goes
          ∙ (ap (λ r. r >>= while_blocks n (i + 1) body) e ∙ e'),
      q',
    )

shifted_small :
    (scale zone i : ℕ) → scale + i < 32 → shifted scale zone i ≡ done (zone * 2 ^ (scale + i) % u32)
shifted_small scale zone i lt =
    if_true (done (zone * 2 ^ (scale + i) % u32)) fault (lt→ltb (scale + i) 32 lt)

module _ (d : Disk) (sp : SuperBlock) (scale n : ℕ) where
  module _ (visit : Inode → Stats → Run Stats) (ip : Inode) where
    entry_loop-Gives :
        (es : List ℕ) (dc : ℕ) (st : Stats)
        → ((k m e : ℕ) (st' : Stats)
            → get_elem? es k ≡ some e
            → m ≡ dc + k
            → skipped ip m e ≡ false
            → Consistent sp n st'
            → Gives (visit_child visit (d.get_inode e) st') (Consistent sp n))
        → Consistent sp n st
        → Gives (entry_loop d sp scale visit ip es dc st) (Consistent sp n)
    unfolding entry_loop
    entry_loop-Gives [] dc st each c = (st, refl, c)
    entry_loop-Gives (e ∷ es) dc st each c =
        let later : (st' : Stats)
            → Consistent sp n st'
            → Gives (entry_loop d sp scale visit ip es (dc + 1) st') (Consistent sp n) =
          λ st'.
            entry_loop-Gives es (dc + 1) st'
              (λ k m e' s at eq. each (suc k) m e' s at (omega (arith, eq))) in
        let child = visit_child visit (d.get_inode e) st in
        Gives-if (skipped ip dc e) (entry_loop d sp scale visit ip es (dc + 1) st)
          (child >>= entry_loop d sp scale visit ip es (dc + 1)) (Consistent sp n) (λ _. later st c)
          (λ kept.
            Gives->>= child (entry_loop d sp scale visit ip es (dc + 1)) (Consistent sp n)
              (Consistent sp n) (each 0 dc e st refl (omega arith) kept c) later)

    -- The block of the `i`-th turn on a zone, and that its entries can be visited.
    abbrev pub entries_of : ℕ → ℕ → List ℕ
    entries_of zone i = d.dir_entries (d.cache.get_block ip.i_dev (zone * 2 ^ (scale + i) % u32))

    abbrev pub Fine : ℕ → Type 0
    Fine zone =
        (i m e : ℕ) (st : Stats)
        → i < 2 ^ scale
        → get_elem? (entries_of zone i) m ≡ some e
        → skipped ip m e ≡ false
        → Consistent sp n st
        → Gives (visit_child visit (d.get_inode e) st) (Consistent sp n)

    abbrev pub Kept : Stats × ℕ → Type 0
    Kept x = Consistent sp n x.0

    dir_block-Gives :
        (zone i : ℕ) (x : Stats × ℕ)
        → scale + 2 ^ scale ≤ 32
        → Fine zone
        → i < 2 ^ scale
        → Kept x
        → Gives (dir_block d sp scale visit ip zone i x) Kept
    unfolding dir_block
    dir_block-Gives zone i (st, cnt) small fine lt c =
        let (st', e, c') =
          entry_loop-Gives (entries_of zone i) 0 st
            (λ k m e st' at eq.
              fine i m e st' lt
                (subst (λ j. get_elem? (entries_of zone i) j ≡ some e) (omega (arith, eq)) at))
            c in
        ((st', cnt - 1), rw (shifted_small scale zone i (omega arith), e) refl, c')

    pub get_frag_for_dir_zone-Gives :
        (zone : ℕ) (x : Stats × ℕ)
        → scale + 2 ^ scale ≤ 32
        → Fine zone
        → Kept x
        → Gives (get_frag_for_dir_zone d sp scale visit ip zone x) Kept
    unfolding get_frag_for_dir_zone
    get_frag_for_dir_zone-Gives zone x small fine c =
        Gives-if (x.1 == 0) (done x)
          (if zone == 0
            then done x
            else while_blocks (2 ^ scale) 0 (dir_block d sp scale visit ip zone) x)
          Kept (λ _. (x, refl, c))
          (λ _.
            Gives-if (zone == 0) (done x)
              (while_blocks (2 ^ scale) 0 (dir_block d sp scale visit ip zone) x) Kept
              (λ _. (x, refl, c))
              (λ _.
                while_blocks-Gives Kept (2 ^ scale) 0 (dir_block d sp scale visit ip zone) x
                  (λ i y lt. dir_block-Gives zone i y small fine (omega arith)) c))

    -- The zones that an indirect block holds.
    abbrev pub held_by : ℕ → ℕ → ℕ
    held_by zone = d.cache.rd_indir (d.cache.get_block ip.i_dev (zone * 2 ^ scale % u32))

    pub get_frag_sin_ind_zone-Gives :
        (zone : ℕ) (x : Stats × ℕ)
        → scale + 2 ^ scale ≤ 32
        → ((j : ℕ) → j < ip.i_nindirs → Fine (held_by zone j))
        → Kept x
        → Gives (get_frag_sin_ind_zone d sp scale visit ip zone x) Kept
    unfolding get_frag_sin_ind_zone
    get_frag_sin_ind_zone-Gives zone x small fine c =
        Gives-if (zone == 0) (done x)
          (while_blocks ip.i_nindirs 0
            (λ i. get_frag_for_dir_zone d sp scale visit ip (held_by zone i)) x)
          Kept (λ _. (x, refl, c))
          (λ _.
            while_blocks-Gives Kept ip.i_nindirs 0
              (λ i. get_frag_for_dir_zone d sp scale visit ip (held_by zone i)) x
              (λ i y lt.
                get_frag_for_dir_zone-Gives (held_by zone i) y small (fine i (omega arith)))
              c)

    pub get_frag_dbl_ind_zone-Gives :
        (zone : ℕ) (x : Stats × ℕ)
        → scale + 2 ^ scale ≤ 32
        → ((j k : ℕ) → j < ip.i_nindirs → k < ip.i_nindirs → Fine (held_by (held_by zone k) j))
        → Kept x
        → Gives (get_frag_dbl_ind_zone d sp scale visit ip zone x) Kept
    unfolding get_frag_dbl_ind_zone
    get_frag_dbl_ind_zone-Gives zone x small fine c =
        Gives-if (zone == 0) (done x)
          (while_blocks ip.i_nindirs 0
            (λ i. get_frag_sin_ind_zone d sp scale visit ip (held_by zone i)) x)
          Kept (λ _. (x, refl, c))
          (λ _.
            while_blocks-Gives Kept ip.i_nindirs 0
              (λ i. get_frag_sin_ind_zone d sp scale visit ip (held_by zone i)) x
              (λ i y lt.
                get_frag_sin_ind_zone-Gives (held_by zone i) y small
                  (λ j lt'. fine j i lt' (omega arith)))
              c)
