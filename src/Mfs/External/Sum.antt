-- ===== src/Mfs/External/Sum.antt =====
-- What the scan of the inode bitmap computes, over the set of the allocated inodes.
use cs551os.Prelude.{
  ℕ, zero, suc, ◌+◌, ◌*◌, ◌<◌, ◌≡◌, Bool, not, max, ◌&&◌, ◌==◌, leb, if◌then◌else◌,
}
use cs551os.Mfs.State.{SuperBlock}
use cs551os.Mfs.External.{Bitmap, Totals, Progress, returned, going, scan_bit, map_bits}

-- The bitmap marks the inodes of `alloc`.
pub record Marks (m : Bitmap) (alloc : ℕ → Bool) : Type 0 where
  pub marked :
      (block word i : ℕ)
      → word < m.chunks
      → i < m.chunk_bits
      → m.is_set block word i ≡ alloc (block * (m.chunks * m.chunk_bits) + word * m.chunk_bits + i)

-- The part of inode `j`: inode 0 does not count.
abbrev pub frag_at : (ℕ → Bool) → (ℕ → ℕ) → ℕ → ℕ
frag_at alloc frag j = if alloc j && not (j == 0) then frag j else 0

-- The sum and the largest of the inodes from `b` on, `n` of them.
unfoldable pub sum_frag : (ℕ → Bool) → (ℕ → ℕ) → (n b : ℕ) → ℕ
sum_frag alloc frag zero b = 0
sum_frag alloc frag (suc n) b = frag_at alloc frag b + sum_frag alloc frag n (b + 1)

unfoldable pub max_frag : (ℕ → Bool) → (ℕ → ℕ) → (n b : ℕ) → ℕ
max_frag alloc frag zero b = 0
max_frag alloc frag (suc n) b = max (frag_at alloc frag b) (max_frag alloc frag n (b + 1))

-- The scan as one loop over the bits, `n` of them from `b` on.
module _ (add : ℕ → Totals → Totals) (frag : ℕ → ℕ) (alloc : ℕ → Bool) (sp : SuperBlock) where
  unfoldable pub bits : (n b : ℕ) → Totals → Progress
  bits zero b t = going t
  bits (suc n) b t =
      let rest = bits n (b + 1) (scan_bit add frag (alloc b) t) in
      if leb (map_bits sp) b then returned t else rest
