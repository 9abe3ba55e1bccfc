-- ===== src/Mfs/External/Laws.antt =====
-- The three loops over the bitmap are one over its bits, and what that one comes to.
use cs551os.Prelude.{
  ℕ, zero, suc, ◌+◌, ◌*◌, ◌%◌, ◌<◌, ◌≤◌, ◌≡◌, ◌∙◌, sym, ap, refl, inl, inr, Bool, false, leb, ◌==◌,
  if◌then◌else◌, Bool-cases, if_true, if_false, arith,
}
use native.Mathlib.Nat.{mod-eq_of_lt, suc-mul, add-mul, mul-le-mul_right}
use cs551os.Mfs.State.{SuperBlock, u32}
use cs551os.Mfs.External.{
  Bitmap, Totals, Progress, returned, then_next, scan_bit, map_bits, bit_loop, word_loop,
  block_loop, scan_bitmap,
}
use cs551os.Mfs.External.Sum.{Marks, bits}

then_next-cong :
    {p q : Progress} {f g : Totals → Progress}
    → p ≡ q
    → ((t : Totals) → f t ≡ g t)
    → then_next p f ≡ then_next q g
then_next-cong h k i = then_next (h i) (λ t. k t i)

module _ (add : ℕ → Totals → Totals) (frag : ℕ → ℕ) {m : Bitmap} {alloc : ℕ → Bool}
    (marks : Marks m alloc) (sp : SuperBlock) where
  bits-then_next :
      (n k b : ℕ) (t : Totals)
      → bits add frag alloc sp (n + k) b t
        ≡ then_next (bits add frag alloc sp n b t) (bits add frag alloc sp k (b + n))
  unfolding bits
  bits-then_next zero k b t =
      let e : 0 + k ≡ k = omega arith in let e' : b + 0 ≡ b = omega arith in rw (e, e') refl
  bits-then_next (suc n) k b t =
      let e : suc n + k ≡ suc (n + k) = omega arith in
      let e' : b + 1 + n ≡ b + suc n = omega arith in
      let next : Progress → Progress = λ p. then_next p (bits add frag alloc sp k (b + suc n)) in
      ap (λ j. bits add frag alloc sp j b t) e ∙ elim (Bool-cases (leb (map_bits sp) b)) [
        | inl end ↦ if_true _ _ end ∙ sym (ap next (if_true _ _ end))
        | inr on ↦
            if_false _ _ on
            ∙ bits-then_next n k (b + 1) (scan_bit add frag (alloc b) t)
            ∙ ap
                (λ j.
                  then_next (bits add frag alloc sp n (b + 1) (scan_bit add frag (alloc b) t))
                    (bits add frag alloc sp k j))
                e'
            ∙ sym (ap next (if_false _ _ on))
      ]

  bit_loop-bits :
      (n block word i : ℕ) (t : Totals)
      → i + n ≤ m.chunk_bits
      → word < m.chunks
      → block * (m.chunks * m.chunk_bits) + word * m.chunk_bits + m.chunk_bits ≤ u32
      → bit_loop add frag m sp n block word i t
        ≡ bits add frag alloc sp n (block * (m.chunks * m.chunk_bits) + word * m.chunk_bits + i) t
  unfolding bit_loop bits
  bit_loop-bits zero block word i t le lt fits = refl
  bit_loop-bits (suc n) block word i t le lt fits =
      let base = block * (m.chunks * m.chunk_bits) + word * m.chunk_bits in
      let number : (base + i) % u32 ≡ base + i = mod-eq_of_lt (omega arith) in
      let up : base + (i + 1) ≡ base + i + 1 = omega arith in
      let v = scan_bit add frag (alloc (base + i)) t in
      let rest : bit_loop add frag m sp n block word (i + 1) v
          ≡ bits add frag alloc sp n (base + i + 1) v =
        bit_loop-bits n block word (i + 1) v (omega arith) lt fits
        ∙ ap (λ j. bits add frag alloc sp n j v) up in
      rw (number, marks.marked block word i lt (omega arith))
        (ap (λ p. if leb (map_bits sp) (base + i) then returned t else p) rest)

  word_loop-bits :
      (n block word : ℕ) (t : Totals)
      → word + n ≤ m.chunks
      → block * (m.chunks * m.chunk_bits) + m.chunks * m.chunk_bits ≤ u32
      → word_loop add frag m sp n block word t
        ≡ bits add frag alloc sp
            (n * m.chunk_bits)
            (block * (m.chunks * m.chunk_bits) + word * m.chunk_bits)
            t
  unfolding word_loop bits
  word_loop-bits zero block word t le fits = let e : 0 * m.chunk_bits ≡ 0 = omega arith in rw e refl
  word_loop-bits (suc n) block word t le fits =
      let cb = m.chunk_bits in
      let base = block * (m.chunks * m.chunk_bits) in
      let e : suc n * cb ≡ cb + n * cb = suc-mul n cb ∙ omega arith in
      let within : suc word * cb ≤ m.chunks * cb = mul-le-mul_right cb (omega arith) in
      let turn : suc word * cb ≡ word * cb + cb = suc-mul word cb in
      let up : base + (word + 1) * cb ≡ base + word * cb + cb = omega (arith, add-mul word 1 cb) in
      let first : base + word * cb + 0 ≡ base + word * cb = omega arith in
      rw (e, bits-then_next cb (n * cb) (base + word * cb) t)
        (then_next-cong
          (bit_loop-bits cb block word 0 t (omega arith) (omega arith) (omega arith)
            ∙ ap (λ j. bits add frag alloc sp cb j t) first)
          (λ v.
            word_loop-bits n block (word + 1) v (omega arith) fits
            ∙ ap (λ j. bits add frag alloc sp (n * cb) j v) up))

  block_loop-bits :
      (n block : ℕ) (t : Totals)
      → (block + n) * (m.chunks * m.chunk_bits) ≤ u32
      → block_loop add frag m sp n block t
        ≡ bits add frag alloc sp
            (n * (m.chunks * m.chunk_bits))
            (block * (m.chunks * m.chunk_bits))
            t
  unfolding block_loop bits
  block_loop-bits zero block t fits =
      let e : 0 * (m.chunks * m.chunk_bits) ≡ 0 = omega arith in rw e refl
  block_loop-bits (suc n) block t fits =
      let size = m.chunks * m.chunk_bits in
      let e : suc n * size ≡ size + n * size = suc-mul n size ∙ omega arith in
      let up : (block + 1) * size ≡ block * size + size = omega (arith, add-mul block 1 size) in
      let same_end : (block + 1) + n ≡ block + suc n = omega arith in
      let here : (block + 1) * size ≤ (block + suc n) * size =
        mul-le-mul_right size (omega arith) in
      let none_left : 0 * m.chunk_bits ≡ 0 = omega arith in
      let first : block * size + 0 * m.chunk_bits ≡ block * size = omega arith in
      rw (e, bits-then_next size (n * size) (block * size) t)
        (then_next-cong
          (word_loop-bits m.chunks block 0 t (omega arith) (omega arith)
            ∙ ap (λ j. bits add frag alloc sp size j t) first)
          (λ v.
            block_loop-bits n (block + 1) v (rw same_end fits)
            ∙ ap (λ j. bits add frag alloc sp (n * size) j v) up))

  pub bitmap-bits :
      (bit_blocks : ℕ)
      → 0 < bit_blocks
      → bit_blocks * (m.chunks * m.chunk_bits) ≤ u32
      → scan_bitmap add frag m sp bit_blocks
        ≡ bits add frag alloc sp
            (bit_blocks * (m.chunks * m.chunk_bits))
            0
            (record { inodes_scanned = 0; total_frag_blocks = 0; max_efrag = 0; min_efrag = 0 })
  unfolding scan_bitmap
  bitmap-bits bit_blocks some_ fits =
      let full : (bit_blocks == 0) ≡ false = ground arith in
      let zero_ : 0 * (m.chunks * m.chunk_bits) ≡ 0 = omega arith in
      let same : 0 + bit_blocks ≡ bit_blocks = omega arith in
      rw full (
        block_loop-bits bit_blocks 0
          (record { inodes_scanned = 0; total_frag_blocks = 0; max_efrag = 0; min_efrag = 0 })
          (rw same fits)
        ∙ ap
            (λ j.
              bits add frag alloc sp (bit_blocks * (m.chunks * m.chunk_bits)) j (record {
                inodes_scanned = 0;
                total_frag_blocks = 0;
                max_efrag = 0;
                min_efrag = 0;
              }))
            zero_)
