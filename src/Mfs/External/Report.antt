-- ===== src/Mfs/External/Report.antt =====
-- What `fs_getfrag` prints.
use cs551os.Prelude.{
  ℕ, zero, suc, ◌+◌, ◌-◌, ◌*◌, ◌^◌, ◌%◌, ◌<◌, ◌≤◌, ◌≡◌, ◌∙◌, sym, ap, refl, inl, inr, Bool, true,
  false, not, max, ◌&&◌, Option, none, some, leb, ◌==◌, Bool-cases, if_true, if_false, arith,
}
use native.Mathlib.Nat.{mod-eq_of_lt, mod-lt, mod-add-mod, mod_self}
use cs551os.Mfs.State.{Inode, SuperBlock, u32, ceil_div}
use cs551os.Mfs.External.{
  Bitmap, Totals, returned, shown_totals, add_frag, scan_bit, map_bits, scan_bitmap, frag_in_inode,
  frag_in_fs, fs_getfrag, unused_blocks,
}
use cs551os.Mfs.External.Sum.{Marks, frag_at, sum_frag, max_frag, bits}
use cs551os.Mfs.External.Laws.{bitmap-bits}

totals-path :
    {a b c d a' b' c' d' : ℕ}
    → a ≡ a'
    → b ≡ b'
    → c ≡ c'
    → d ≡ d'
    → ◌≡◌ {A = Totals}
        (record { inodes_scanned = a; total_frag_blocks = b; max_efrag = c; min_efrag = d })
        (record { inodes_scanned = a'; total_frag_blocks = b'; max_efrag = c'; min_efrag = d' })
totals-path p q r s i = record {
  inodes_scanned = p i;
  total_frag_blocks = q i;
  max_efrag = r i;
  min_efrag = s i;
}

module _ (frag : ℕ → ℕ) (alloc : ℕ → Bool) (sp : SuperBlock) where
  -- The totals after `k` more bits from `b` on, while the smallest is 0.
  abbrev after : (k b : ℕ) → Totals → Totals
  after k b t = record {
    inodes_scanned = b + k;
    total_frag_blocks = (t.total_frag_blocks + sum_frag alloc frag k b) % u32;
    max_efrag = max t.max_efrag (max_frag alloc frag k b);
    min_efrag = 0;
  }

  -- The counters of a scan that has come to bit `b`.
  abbrev At : ℕ → Totals → Type 0
  At b t = (t.inodes_scanned ≡ b) × (t.total_frag_blocks < u32) × (t.min_efrag ≡ 0)

  scan_bit-At :
      (b : ℕ) (t : Totals)
      → At b t
      → b + 1 < u32
      → let v = scan_bit add_frag frag (alloc b) t in
        (v.inodes_scanned ≡ b + 1)
        × (v.total_frag_blocks ≡ (t.total_frag_blocks + frag_at alloc frag b) % u32)
        × (v.max_efrag ≡ max t.max_efrag (frag_at alloc frag b))
        × (v.min_efrag ≡ 0)
  scan_bit-At b t (e, lt, mn) small = elim (Bool-cases (alloc b && not (b == 0))) [
    | inl on ↦ rw (e, on) (omega arith, refl, ground arith, ground arith)
    | inr off ↦ rw (e, off) (omega arith, omega arith, omega arith, mn)
  ]

  bits-returned :
      (k n b : ℕ) (t : Totals)
      → At b t
      → b + k ≡ map_bits sp
      → k < n
      → bits add_frag frag alloc sp n b t ≡ returned (after k b t)
  unfolding bits sum_frag max_frag
  bits-returned k zero b t (e, lt, mn) end le = absurd (omega arith)
  bits-returned zero (suc n) b t (e, lt, mn) end le =
      let stop : leb (map_bits sp) b ≡ true = ground arith in
      if_true _ _ stop ∙ ap returned (totals-path (omega arith) (omega arith) (omega arith) mn)
  bits-returned (suc k) (suc n) b t (e, lt, mn) end le =
      let go_on : leb (map_bits sp) b ≡ false = ground arith in
      let bound : map_bits sp < u32 = mod-lt (sp.s_ninodes + 1) (omega arith) in
      let (e', total', max', min') = scan_bit-At b t (e, lt, mn) (omega arith) in
      if_false _ _ go_on
      ∙ bits-returned k n (b + 1) (scan_bit add_frag frag (alloc b) t) (e', omega arith, min')
          (omega arith) (omega arith)
      ∙ ap returned (totals-path (omega arith) (omega arith) (omega arith) refl)

  bits-going :
      (n b : ℕ) (t : Totals)
      → b + n ≤ map_bits sp
      → shown_totals (bits add_frag frag alloc sp n b t) ≡ none
  unfolding bits
  bits-going zero b t le = refl
  bits-going (suc n) b t le =
      let go_on : leb (map_bits sp) b ≡ false = ground arith in
      ap shown_totals (if_false _ _ go_on)
      ∙ bits-going n (b + 1) (scan_bit add_frag frag (alloc b) t) (omega arith)

-- With at least one block in a zone, the unused blocks of an inode are fewer than a zone has, and
-- fill its last zone up.
unused_blocks_lem :
    (blocks_per_zone : ℕ) (sp : SuperBlock) (rip : Inode)
    → 0 < blocks_per_zone
    → let unused = unused_blocks blocks_per_zone sp rip in
      (unused < blocks_per_zone)
      × ((ceil_div rip.i_size sp.s_block_size + unused) % blocks_per_zone ≡ 0)
unused_blocks_lem z sp rip pos_ =
    let used = ceil_div rip.i_size sp.s_block_size in
    let lt : used % z < z = mod-lt used pos_ in
    elim (Bool-cases (used % z == 0)) [
      | inl e ↦ let same : used + 0 ≡ used = omega arith in rw e (pos_, rw same (ground arith))
      | inr e ↦
          let fill : used % z + (z - used % z) ≡ z = omega arith in
          rw e (
            ground arith,
            sym (mod-add-mod used z (z - used % z)) ∙ ap (λ n. n % z) fill ∙ mod_self z,
          )
    ]

-- For a bitmap of at least one block and at most 2 ^ 32 bits that marks the inodes of `alloc`, with
-- a bit to spare behind the last inode, `fs_getfrag` prints the sum, modulo 2 ^ 32, and the largest
-- of the unused blocks of the allocated inodes from 1 on, and 0 for the smallest, whatever they
-- are.
pub fs_getfrag_lem :
    (sp : SuperBlock) (get_inode : ℕ → Option Inode) {m : Bitmap} {alloc : ℕ → Bool}
    (bit_blocks : ℕ)
    → Marks m alloc
    → 0 < bit_blocks
    → bit_blocks * (m.chunks * m.chunk_bits) ≤ u32
    → sp.s_ninodes + 1 < bit_blocks * (m.chunks * m.chunk_bits)
    → let frag = frag_in_inode (2 ^ sp.s_log_zone_size) sp get_inode in
      fs_getfrag sp get_inode m bit_blocks
      ≡ some (record {
        inodes_scanned = sp.s_ninodes + 1;
        total_frag_blocks = sum_frag alloc frag (sp.s_ninodes + 1) 0 % u32;
        max_efrag = max_frag alloc frag (sp.s_ninodes + 1) 0;
        min_efrag = 0;
      })
unfolding fs_getfrag frag_in_fs scan_bitmap
fs_getfrag_lem sp get_inode {m} {alloc} bit_blocks marks some_ fits room =
    let frag = frag_in_inode (2 ^ sp.s_log_zone_size) sp get_inode in
    let bound : map_bits sp ≡ sp.s_ninodes + 1 = mod-eq_of_lt (omega arith) in
    ap shown_totals (
      bitmap-bits add_frag frag marks sp bit_blocks some_ fits
      ∙ bits-returned frag alloc sp (sp.s_ninodes + 1) _ 0 _ (refl, omega arith, refl) (omega arith)
          room)
    ∙ ap some (totals-path (omega arith) (omega arith) (omega arith) refl)

-- For such a bitmap with no bit to spare behind the last inode, `fs_getfrag` prints nothing.
fs_getfrag-full :
    (sp : SuperBlock) (get_inode : ℕ → Option Inode) {m : Bitmap} {alloc : ℕ → Bool}
    (bit_blocks : ℕ)
    → Marks m alloc
    → 0 < bit_blocks
    → bit_blocks * (m.chunks * m.chunk_bits) ≤ u32
    → bit_blocks * (m.chunks * m.chunk_bits) ≤ sp.s_ninodes + 1
    → sp.s_ninodes + 1 < u32
    → fs_getfrag sp get_inode m bit_blocks ≡ none
unfolding fs_getfrag frag_in_fs scan_bitmap
fs_getfrag-full sp get_inode {m} {alloc} bit_blocks marks some_ fits full small =
    let frag = frag_in_inode (2 ^ sp.s_log_zone_size) sp get_inode in
    let bound : map_bits sp ≡ sp.s_ninodes + 1 = mod-eq_of_lt small in
    ap shown_totals (bitmap-bits add_frag frag marks sp bit_blocks some_ fits)
    ∙ bits-going frag alloc sp _ 0 _ (omega arith)
