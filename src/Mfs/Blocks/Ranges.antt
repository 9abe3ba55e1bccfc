-- ===== src/Mfs/Blocks/Ranges.antt =====
-- The ranges that `fs_get_inode_blocks` prints are the blocks of the file.
use cs551os.Prelude.{
  ℕ, zero, suc, ◌+◌, ◌-◌, ◌<◌, ◌≡◌, ◌∙◌, ap, sym, refl, subst, inl, inr, true, false, List, [], ◌∷◌,
  ◌++◌, ◌==◌, ℤ, pos, negsuc, minus_one, eq_int, if◌then◌else◌, Bool-cases, if_false, arith, take,
}
use mathlib.Core.List.{append_assoc, append-nil}
use cs551os.Mfs.State.{Inode, SuperBlock, Cache, Honest, ceil_div}
use cs551os.Mfs.Blocks.{Walk, take_block, follows, first_walk, fs_get_inode_blocks}
use cs551os.Mfs.Blocks.Spec.{file_blocks, count_up, range_blocks, expand, AllValid}
use cs551os.Mfs.Blocks.Scan.{scan, scan-done, walk_zones-Scans}

expand-append : (rs ss : List (ℤ × ℤ)) → expand (rs ++ ss) ≡ expand rs ++ expand ss
unfolding expand
expand-append [] ss = refl
expand-append (r ∷ rs) ss =
    ap (λ l. range_blocks r ++ l) (expand-append rs ss)
    ∙ sym (append_assoc (range_blocks r) (expand rs) (expand ss))

count_up_snoc : (a n : ℕ) → count_up a (suc n) ≡ count_up a n ++ ((a + n) ∷ [])
unfolding count_up
count_up_snoc a zero = ap (λ m. m ∷ []) (omega arith)
count_up_snoc a (suc n) =
    ap (λ l. a ∷ l) (count_up_snoc (a + 1) n)
    ∙ ap (λ m. a ∷ (count_up (a + 1) n ++ (m ∷ []))) (omega arith)

-- The ranges printed once the walk ends here.
abbrev pub printed : Walk → List (ℤ × ℤ)
printed w = w.shown ++ ((w.starting_block_num, w.last_block_num) ∷ [])

-- The walk has taken the blocks `bs`: none, or some, of which the last ones are the open range.
pub data Taken (w : Walk) (bs : List ℕ) : Type 0 where
  nothing :
      bs ≡ []
      → w.starting_block_num ≡ minus_one
      → w.last_block_num ≡ negsuc 1
      → w.shown ≡ []
      → Taken w bs
  up_to :
      (a k : ℕ)
      → w.starting_block_num ≡ pos a
      → w.last_block_num ≡ pos (a + k)
      → a + k < 2147483648
      → bs ≡ expand w.shown ++ count_up a (suc k)
      → Taken w bs

module _ (b : ℕ) (w : Walk) where
  take_block-joins :
      follows w.last_block_num b ≡ true
      → ((take_block b w).starting_block_num ≡ w.starting_block_num)
        × ((take_block b w).shown ≡ w.shown)
  take_block-joins e = rw e (refl, refl)

  take_block-begins :
      follows w.last_block_num b ≡ false
      → ((take_block b w).starting_block_num ≡ pos b)
        × ((take_block b w).shown
            ≡ (if eq_int w.starting_block_num minus_one then w.shown else printed w))
  take_block-begins e = rw e (refl, refl)

first-gap : (last : ℤ) (b : ℕ) → last ≡ negsuc 1 → 0 < b → b < 2147483648 → follows last b ≡ false
first-gap last b e p q = rw e (ground arith)

next-block :
    (last : ℤ) (b l : ℕ)
    → last ≡ pos l
    → l < 2147483648
    → 0 < b
    → b < 2147483648
    → follows last b ≡ true
    → b ≡ l + 1
next-block last b l e lt p q on =
    let on' : follows (pos l) b ≡ true = subst (λ z. follows z b ≡ true) e on in ground arith

-- What is printed when the walk ends is what it took.
printed-expand : (w : Walk) (bs : List ℕ) → Taken w bs → expand (printed w) ≡ bs
unfolding expand
printed-expand w bs (nothing e st la sh) = rw (e, st, la, sh)
printed-expand w bs (up_to a k st la lt e) =
    let n : a + k + 1 - a ≡ suc k = omega arith in
    expand-append w.shown ((w.starting_block_num, w.last_block_num) ∷ [])
    ∙ rw (st, la, n, e) (ap (λ l. expand w.shown ++ l) (append-nil (count_up a (suc k))))

take_block-Taken :
    (b : ℕ) (w : Walk) (bs : List ℕ)
    → 0 < b
    → b < 2147483648
    → Taken w bs
    → Taken (take_block b w) (bs ++ (b ∷ []))
unfolding expand count_up
take_block-Taken b w bs p q (nothing e st la sh) =
    let (st', sh') = take_block-begins b w (first-gap w.last_block_num b la p q) in
    let none_shown : (take_block b w).shown ≡ [] = rw (sh', st, sh) refl in
    up_to b 0 st' (ap pos (omega arith)) (omega arith) (rw (e, none_shown))
take_block-Taken b w bs p q (up_to a k st la lt e) =
    elim (Bool-cases (follows w.last_block_num b)) [
      | inl on ↦
          let (st', sh') = take_block-joins b w on in
          let n : b ≡ a + k + 1 = next-block w.last_block_num b (a + k) la lt p q on in
          let n' : b ≡ a + suc k = omega arith in
          up_to a (suc k) (st' ∙ st) (ap pos (omega arith)) (omega arith) (
            rw (sh', e, count_up_snoc a (suc k), ← n')
              (append_assoc (expand w.shown) (count_up a (suc k)) (b ∷ [])))
      | inr gap ↦
          let (st', sh') = take_block-begins b w gap in
          let shown' : (take_block b w).shown ≡ printed w = sh' ∙ rw st refl in
          up_to b 0 st' (ap pos (omega arith)) (omega arith) (
            ap (λ l. l ++ (b ∷ []))
              (sym (printed-expand w bs (up_to a k st la lt e)) ∙ ap expand (sym shown')))
    ]

scan-Taken :
    (n : ℕ) (bs : List ℕ) (w : Walk) (seen : List ℕ)
    → w.block_count ≡ n
    → AllValid bs
    → Taken w seen
    → Taken (scan bs w) (seen ++ take n bs)
unfolding scan
scan-Taken zero bs w seen c v t = rw (scan-done bs w (ground arith), append-nil seen) t
scan-Taken (suc n) [] w seen c v t = rw (append-nil seen) t
scan-Taken (suc n) (b ∷ bs) w seen c (p, q, v) t =
    let more : Taken (scan bs (take_block b w)) ((seen ++ (b ∷ [])) ++ take n bs) =
      scan-Taken n bs (take_block b w) _ (omega arith) v (take_block-Taken b w seen p q t) in
    let left : (w.block_count == 0) ≡ false = ground arith in
    subst (λ v'. Taken v' (seen ++ (b ∷ take n bs))) (sym (if_false w _ left))
      (subst (Taken _) (append_assoc seen (b ∷ []) (take n bs)) more)

-- With a cache that gives the blocks that it is asked for, the ranges that `fs_get_inode_blocks`
-- prints, put together, are the first blocks of the file's zones in their order, holes left out, as
-- many as its size needs; for block numbers from 1 to 2 ^ 31 - 1.
pub fs_get_inode_blocks_lem :
    {c : Cache} (sp : SuperBlock) (ip : Inode)
    → Honest c
    → AllValid (file_blocks c sp.s_log_zone_size ip)
    → let (ranges, total) = fs_get_inode_blocks c sp ip in
      (total ≡ ceil_div ip.i_size sp.s_block_size)
      × (expand ranges ≡ take total (file_blocks c sp.s_log_zone_size ip))
unfolding fs_get_inode_blocks
fs_get_inode_blocks_lem {c} sp ip honest v =
    let total = ceil_div ip.i_size sp.s_block_size in
    let blocks = file_blocks c sp.s_log_zone_size ip in
    (
      refl,
      ap (λ w. expand (printed w))
            (walk_zones-Scans honest sp.s_log_zone_size ip (first_walk total) refl)
          ∙ printed-expand (scan blocks (first_walk total)) (take total blocks)
              (scan-Taken total blocks (first_walk total) [] refl v (nothing refl refl refl refl)),
    )
