-- ===== src/Mfs/Blocks/Spec.antt =====
-- Which blocks a file has, in the order of its zones.
use cs551os.Prelude.{
  ℕ, zero, suc, ◌+◌, ◌^◌, ◌<◌, List, [], ◌∷◌, ◌++◌, ℤ, pos, negsuc, ◌-◌, ◌==◌, if◌then◌else◌,
}
use cs551os.Mfs.State.{Inode, Cache}
use cs551os.Mfs.Blocks.{block_of}

-- The lists of `n` indices from `i` on, after one another.
unfoldable pub joined : ℕ → ℕ → (ℕ → List ℕ) → List ℕ
joined zero i f = []
joined (suc n) i f = f i ++ joined n (i + 1) f

module _ (c : Cache) (scale : ℕ) (ip : Inode) where
  -- A hole has no blocks.
  abbrev pub zone_blocks : ℕ → List ℕ
  zone_blocks zone =
      if zone == 0 then [] else joined (2 ^ scale) 0 (λ i. block_of scale zone i ∷ [])

  abbrev pub sin_blocks : ℕ → List ℕ
  sin_blocks zone =
      let bp = c.get_block ip.i_dev (block_of scale zone 0) in
      if zone == 0 then [] else joined ip.i_nindirs 0 (λ i. zone_blocks (c.rd_indir bp i))

  abbrev pub dbl_blocks : ℕ → List ℕ
  dbl_blocks zone =
      let bp = c.get_block ip.i_dev (block_of scale zone 0) in
      if zone == 0 then [] else joined ip.i_nindirs 0 (λ i. sin_blocks (c.rd_indir bp i))

  abbrev pub file_blocks : List ℕ
  file_blocks =
      joined ip.i_ndzones 0 (λ i. zone_blocks (ip.i_zone i))
      ++ (sin_blocks (ip.i_zone ip.i_ndzones) ++ dbl_blocks (ip.i_zone (ip.i_ndzones + 1)))

-- `n` numbers from `a` on.
unfoldable pub count_up : ℕ → ℕ → List ℕ
count_up a zero = []
count_up a (suc n) = a ∷ count_up (a + 1) n

-- The blocks that a printed range stands for.
abbrev pub range_blocks : ℤ × ℤ → List ℕ
range_blocks (pos a, pos b) = count_up a (b + 1 - a)
range_blocks (pos a, negsuc b) = []
range_blocks (negsuc a, b) = []

unfoldable pub expand : List (ℤ × ℤ) → List ℕ
expand [] = []
expand (r ∷ rs) = range_blocks r ++ expand rs

abbrev pub AllValid : List ℕ → Type 0
AllValid [] = Unit {0}
AllValid (b ∷ bs) = (0 < b) × (b < 2147483648) × AllValid bs
