-- ===== src/Mfs/Internal/Bins.antt =====
-- One entry of the statistics keeps them consistent.
use cs551os.Prelude.{
  ℕ, zero, suc, ◌+◌, ◌*◌, ◌/◌, ◌%◌, ◌≤◌, ◌<◌, ◌≡◌, ◌∙◌, refl, min, max, some, List, [], ◌∷◌, length,
  length-set, get_elem?, set, Gives, arith,
}
use native.Mathlib.Nat.{div-lt_iff_lt-mul, mul-le-mul_left, add-mul, mod-lt}
use cs551os.Mfs.State.{Inode, SuperBlock}
use cs551os.Mfs.Internal.{
  Stats, num_frag_bins, int_frag_val, bump, no_limit, note_frag, first_stats,
}

unfoldable pub sum : List ℕ → ℕ
sum [] = 0
sum (x ∷ xs) = x + sum xs

sum-set : (xs : List ℕ) (i n v : ℕ) → get_elem? xs i ≡ some n → sum (set xs i v) + n ≡ sum xs + v
unfolding sum
sum-set [] i n v e = absurd (ground arith)
sum-set (x ∷ xs) zero n v e = ground arith
sum-set (x ∷ xs) (suc i) n v e = omega (arith, sum-set xs i n v e)

get_elem?-some : (xs : List ℕ) (i : ℕ) → i < length xs → (n : ℕ) × (get_elem? xs i ≡ some n)
get_elem?-some [] i lt = absurd (omega arith)
get_elem?-some (x ∷ xs) zero lt = (x, refl)
get_elem?-some (x ∷ xs) (suc i) lt = get_elem?-some xs i (omega arith)

-- The eight bins hold all entries, at least `n`; each entry is between the smallest and the largest
-- one, which is less than a block.
pub record Consistent (sp : SuperBlock) (n : ℕ) (st : Stats) : Type 0 where
  pub bins : length st.frag_stat ≡ num_frag_bins
  pub counted : sum st.frag_stat ≡ st.num_int_frag_entries
  pub entries : n ≤ st.num_int_frag_entries
  pub below : st.max_frag_val < sp.s_block_size
  pub most : st.tot_int_frag ≤ st.num_int_frag_entries * st.max_frag_val
  pub least : st.num_int_frag_entries * st.min_frag_val ≤ st.tot_int_frag

pub int_frag_val-lt :
    (sp : SuperBlock) (ip : Inode) → 0 < sp.s_block_size → int_frag_val sp ip < sp.s_block_size
int_frag_val-lt sp ip p =
    let lt : ip.i_size % sp.s_block_size < sp.s_block_size = mod-lt ip.i_size p in ground arith

bump-Gives :
    (xs : List ℕ) (i : ℕ)
    → i < length xs
    → Gives (bump xs i) (λ ys. (length ys ≡ length xs) × (sum ys ≡ sum xs + 1))
unfolding bump
bump-Gives xs i lt =
    let (n, e) = get_elem?-some xs i lt in
    (
      set xs i (n + 1),
      rw e refl,
      (length-set xs i (n + 1), omega (arith, sum-set xs i n (n + 1) e)),
    )

-- The next mean: from `t` of `n` entries up to `m` each, one more `v`.
more_most : (t n m v : ℕ) → t ≤ n * m → t + v ≤ (n + 1) * max v m
more_most t n m v le =
    let step : n * m ≤ n * max v m = mul-le-mul_left n (omega arith) in
    omega (arith, add-mul n 1 (max v m))

more_least : (t n m v : ℕ) → n * m ≤ t → (n + 1) * min v m ≤ t + v
more_least t n m v le =
    let step : n * min v m ≤ n * m = mul-le-mul_left n (omega arith) in
    omega (arith, add-mul n 1 (min v m))

pub note_frag-Gives :
    (sp : SuperBlock) (ip : Inode) (n : ℕ) (st : Stats)
    → 0 < sp.s_block_size
    → Consistent sp n st
    → Gives (note_frag no_limit sp ip st) (Consistent sp (n + 1))
unfolding note_frag
note_frag-Gives sp ip n st p c =
    let v = int_frag_val sp ip in
    let lt : v < sp.s_block_size = int_frag_val-lt sp ip p in
    let in_bins : v * num_frag_bins / sp.s_block_size < num_frag_bins =
      (div-lt_iff_lt-mul p).1 (omega arith) in
    let (bins, e, (same, more)) =
      bump-Gives st.frag_stat (v * num_frag_bins / sp.s_block_size) (omega (arith, c.bins)) in
    (
      record st {
        tot_int_frag = st.tot_int_frag + v;
        num_int_frag_entries = st.num_int_frag_entries + 1;
        min_frag_val = min v st.min_frag_val;
        max_frag_val = max v st.max_frag_val;
        frag_stat = bins;
      },
      rw e refl,
      record {
        bins = same ∙ c.bins;
        counted = omega (arith, c.counted);
        entries = omega (arith, c.entries);
        below = omega (arith, c.below);
        most = more_most st.tot_int_frag st.num_int_frag_entries st.max_frag_val v c.most;
        least = more_least st.tot_int_frag st.num_int_frag_entries st.min_frag_val v c.least;
      },
    )

pub first_stats-Consistent :
    (sp : SuperBlock) → 0 < sp.s_block_size → Consistent sp 0 (first_stats sp)
unfolding sum
first_stats-Consistent sp p = record {
  bins = omega arith;
  counted = refl;
  entries = omega arith;
  below = p;
  most = omega arith;
  least = omega arith;
}

pub weaken :
    {sp : SuperBlock} {n m : ℕ} {st : Stats} → m ≤ n → Consistent sp n st → Consistent sp m st
weaken le c = record {
  bins = c.bins;
  counted = c.counted;
  entries = omega (arith, le, c.entries);
  below = c.below;
  most = c.most;
  least = c.least;
}
