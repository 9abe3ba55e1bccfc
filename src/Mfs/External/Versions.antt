-- ===== src/Mfs/External/Versions.antt =====
-- The two versions of the scan, `FraginFS` and `computeExtFragInFS`, agree.
use mathlib.Core.Option
use cs551os.Prelude.{
  ℕ, zero, suc, ◌+◌, ◌*◌, ◌%◌, ◌<◌, ◌≤◌, ◌≡◌, ◌∙◌, ap, sym, refl, inl, inr, Bool, true, false, not,
  ◌&&◌, Option, some, leb, ◌==◌, if◌then◌else◌, Bool-cases,
}
use cs551os.Mfs.State.{Inode, SuperBlock, u32}
use cs551os.Mfs.External.{
  Bitmap, Totals, Progress, then_next, returned, going, shown_totals, add_frag, scan_bit, map_bits,
  bit_loop, word_loop, block_loop, frag_in_inode, frag_in_fs,
}
use cs551os.Mfs.External.Compute.{
  add_ext_frag, ext_bit_loop, ext_word_loop, ext_block_loop, compute_ext_frag_in_inode,
  compute_ext_frag_in_fs,
}
use cs551os.Mfs.External.Sum.{Marks, bits}
use cs551os.Mfs.External.Laws.{bitmap-bits}

abbrev Same : Totals → Totals → Type 0
Same t t' = (t.inodes_scanned ≡ t'.inodes_scanned) × (t.total_frag_blocks ≡ t'.total_frag_blocks)

-- The total that a report shows.
abbrev pub total_of : Option Totals → Option ℕ
total_of o = Option.map (λ t. t.total_frag_blocks) o

module _ (frag : ℕ → ℕ) (alloc : ℕ → Bool) (sp : SuperBlock) where
  add_frag_total :
      (b : Bool) (t : Totals)
      → (if b then add_frag (frag t.inodes_scanned) t else t).total_frag_blocks
        ≡ (if b then (t.total_frag_blocks + frag t.inodes_scanned) % u32 else t.total_frag_blocks)
  add_frag_total true t = refl
  add_frag_total false t = refl

  add_ext_frag_total :
      (b : Bool) (t : Totals)
      → (if b then add_ext_frag (frag t.inodes_scanned) t else t).total_frag_blocks
        ≡ (if b then (t.total_frag_blocks + frag t.inodes_scanned) % u32 else t.total_frag_blocks)
  add_ext_frag_total true t = refl
  add_ext_frag_total false t = refl

  scan_bit-Same :
      (on : Bool) (t t' : Totals)
      → Same t t'
      → Same (scan_bit add_frag frag on t) (scan_bit add_ext_frag frag on t')
  scan_bit-Same on t t' (e, e') = (
    ap (λ n. (n + 1) % u32) e,
    add_frag_total (on && not (t.inodes_scanned == 0)) t
        ∙ (λ i. if on && not (e i == 0) then (e' i + frag (e i)) % u32 else e' i)
        ∙ sym (add_ext_frag_total (on && not (t'.inodes_scanned == 0)) t'),
  )

  bits-Same :
      (n b : ℕ) (t t' : Totals)
      → Same t t'
      → total_of (shown_totals (bits add_frag frag alloc sp n b t))
        ≡ total_of (shown_totals (bits add_ext_frag frag alloc sp n b t'))
  unfolding bits
  bits-Same zero b t t' s = refl
  bits-Same (suc n) b t t' s = elim (Bool-cases (leb (map_bits sp) b)) [
    | inl e ↦ rw e (ap some s.1)
    | inr e ↦ rw e (bits-Same n (b + 1) _ _ (scan_bit-Same (alloc b) t t' s))
  ]

-- The loops of `computeExtFragInFS` are those of `FraginFS` with another sum.
module _ (frag : ℕ → ℕ) (m : Bitmap) (sp : SuperBlock) where
  ext_bit_loop-bit_loop :
      (n block word i : ℕ) (t : Totals)
      → ext_bit_loop frag m sp n block word i t ≡ bit_loop add_ext_frag frag m sp n block word i t
  unfolding ext_bit_loop bit_loop
  ext_bit_loop-bit_loop zero block word i t = refl
  ext_bit_loop-bit_loop (suc n) block word i t =
      rw (ext_bit_loop-bit_loop n block word (i + 1)) refl

  then_next-ap :
      (p q : Progress) (f g : Totals → Progress)
      → p ≡ q
      → ((t : Totals) → f t ≡ g t)
      → then_next p f ≡ then_next q g
  then_next-ap p q f g e h = rw e (each q)
    where
      each : (q : Progress) → then_next q f ≡ then_next q g
      each (returned t) = refl
      each (going t) = h t

  ext_word_loop-word_loop :
      (n block word : ℕ) (t : Totals)
      → ext_word_loop frag m sp n block word t ≡ word_loop add_ext_frag frag m sp n block word t
  unfolding ext_word_loop word_loop
  ext_word_loop-word_loop zero block word t = refl
  ext_word_loop-word_loop (suc n) block word t =
      then_next-ap _ _ _ _ (ext_bit_loop-bit_loop m.chunk_bits block word 0 t)
        (ext_word_loop-word_loop n block (word + 1))

  ext_block_loop-block_loop :
      (n block : ℕ) (t : Totals)
      → ext_block_loop frag m sp n block t ≡ block_loop add_ext_frag frag m sp n block t
  unfolding ext_block_loop block_loop
  ext_block_loop-block_loop zero block t = refl
  ext_block_loop-block_loop (suc n) block t =
      then_next-ap _ _ _ _ (ext_word_loop-word_loop m.chunks block 0 t)
        (ext_block_loop-block_loop n (block + 1))

-- For a bitmap of at least one block and at most 2 ^ 32 bits that marks some set of inodes,
-- `FraginFS` and `computeExtFragInFS` print the same total, or both print nothing.
pub frag_in_fs-compute_ext_frag_in_fs :
    (blocks_per_zone : ℕ) (sp : SuperBlock) (get_inode : ℕ → Option Inode) {m : Bitmap}
    {alloc : ℕ → Bool} (bit_blocks : ℕ)
    → Marks m alloc
    → 0 < bit_blocks
    → bit_blocks * (m.chunks * m.chunk_bits) ≤ u32
    → total_of (frag_in_fs blocks_per_zone sp get_inode m bit_blocks)
      ≡ total_of (compute_ext_frag_in_fs blocks_per_zone sp get_inode m bit_blocks)
unfolding frag_in_fs cs551os.Mfs.External.scan_bitmap compute_ext_frag_in_fs frag_in_inode
    compute_ext_frag_in_inode
frag_in_fs-compute_ext_frag_in_fs z sp get_inode {m} {alloc} bit_blocks marks some_ fits =
    let frag = frag_in_inode z sp get_inode in
    let frag' = compute_ext_frag_in_inode z sp get_inode in
    let same_frag : frag ≡ frag' = refl in
    ap (λ p. total_of (shown_totals p)) (bitmap-bits add_frag frag marks sp bit_blocks some_ fits)
    ∙ bits-Same frag alloc sp _ 0
        (record { inodes_scanned = 0; total_frag_blocks = 0; max_efrag = 0; min_efrag = 0 })
        (record { inodes_scanned = 0; total_frag_blocks = 0; max_efrag = 0; min_efrag = 0 })
        (refl, refl)
    ∙ ap
        (λ f. total_of (
          shown_totals (
            bits add_ext_frag f alloc sp (bit_blocks * (m.chunks * m.chunk_bits)) 0 (record {
              inodes_scanned = 0;
              total_frag_blocks = 0;
              max_efrag = 0;
              min_efrag = 0;
            }))))
        same_frag
    ∙ ap (λ p. total_of (shown_totals p))
        (sym (
          ext_block_loop-block_loop frag' m sp _ 0 _
          ∙ bitmap-bits add_ext_frag frag' marks sp bit_blocks some_ fits))
