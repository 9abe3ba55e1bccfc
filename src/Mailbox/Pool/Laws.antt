-- ===== src/Mailbox/Pool/Laws.antt =====
-- The bit map of mailbox ids: which id is handed out, and that giving it back undoes that.
use cs551os.Prelude.{
  ℕ, zero, suc, ◌+◌, ◌<◌, ◌≡◌, refl, ◌≢◌, subst, inl, inr, ℤ, pos, negsuc, minus_one, bit_or, arith,
  ◌==◌, Bool-cases, if◌then◌else◌,
}
use cs551os.Prelude.Bits.{
  bit, test_bit, test_bit-bit_or, test_bit-bit_xor, bit_and-bit, bit_xor-bit_or,
}
use native.Mathlib.Decide.{dec_lt}
use cs551os.Mailbox.State.{Server, max_mailboxes}
use cs551os.Mailbox.Pool.{free_id_loop, get_free_id, set_free_id}

-- The ids below `n` are all taken.
abbrev pub TakenBelow : Server → ℕ → Type 0
TakenBelow s n = (j : ℕ) → j < n → test_bit s.mb_id_pool j ≢ 0

-- The server with the bit of one more id set.
abbrev pub with_id : Server → ℕ → Server
with_id s i = record s {
  mb_id_pool = bit_or s.mb_id_pool (bit i);
  num_active_mailboxes = s.num_active_mailboxes + 1;
}

-- `get_free_id` answers the least free id and marks it, or -1 with all ids taken.
abbrev pub IsFreeId : Server → ℤ → Server → Type 0
IsFreeId s (pos i) s' =
    (i < max_mailboxes) × (test_bit s.mb_id_pool i ≡ 0) × TakenBelow s i × (s' ≡ with_id s i)
IsFreeId s (negsuc n) s' = (n ≡ 0) × (s' ≡ s) × TakenBelow s max_mailboxes

TakenBelow-suc :
    (s : Server) (i : ℕ) → TakenBelow s i → test_bit s.mb_id_pool i ≢ 0 → TakenBelow s (i + 1)
TakenBelow-suc s i below here j lt = elim (dec_lt j i) [
  | yes h ↦ below j h
  | no h ↦ let e : j ≡ i = omega arith in rw e here
]

free_id_loop-IsFreeId :
    (n i : ℕ) (s : Server)
    → i + n ≡ max_mailboxes
    → TakenBelow s i
    → let (id, s') = free_id_loop n i s in IsFreeId s id s'
unfolding free_id_loop
free_id_loop-IsFreeId zero i s e below =
    let e' : i ≡ max_mailboxes = omega arith in (refl, refl, rw e' at below)
free_id_loop-IsFreeId (suc n) i s e below = elim (Bool-cases (test_bit s.mb_id_pool i == 0)) [
  | inl free ↦ rw free (omega arith, ground arith, below, refl)
  | inr taken ↦
      rw taken
        (free_id_loop-IsFreeId n (i + 1) s (omega arith) (TakenBelow-suc s i below (ground arith)))
]

-- `get_free_id` hands out the least free id and marks it taken, or answers -1 and changes nothing,
-- and then every id is taken.
pub get_free_id_lem : (s : Server) → let (id, s') = get_free_id s in IsFreeId s id s'
unfolding get_free_id
get_free_id_lem s = free_id_loop-IsFreeId max_mailboxes 0 s refl (λ j lt. absurd (omega arith))

-- The bits after `get_free_id` took `i`.
pub test_bit-with_id :
    (s : Server) (i j : ℕ)
    → test_bit (with_id s i).mb_id_pool j ≡ (if i == j then 1 else test_bit s.mb_id_pool j)
test_bit-with_id s i j = test_bit-bit_or s.mb_id_pool i j

-- `set_free_id` of an id that is not taken answers -1 and changes nothing; of a taken id it
-- answers 0, and clears the bit of that id and no other.
set_free_id_lem :
    (s : Server) (i : ℕ)
    → let (r, s') = set_free_id s i in
      (test_bit s.mb_id_pool i ≡ 0 → (r ≡ minus_one) × (s' ≡ s))
      × (test_bit s.mb_id_pool i ≢ 0
          → (r ≡ pos 0)
            × ((j : ℕ)
                → test_bit s'.mb_id_pool j ≡ (if i == j then 0 else test_bit s.mb_id_pool j)))
unfolding set_free_id
set_free_id_lem s i =
    let p = s.mb_id_pool in
    (
      λ clear. ground (arith, bit_and-bit p i),
      λ taken. (
        ground (arith, bit_and-bit p i),
        λ j. ground (arith, bit_and-bit p i, test_bit-bit_xor p i j),
      ),
    )

-- Giving back the id that `get_free_id` just handed out answers 0 and restores the pool; the number
-- of active mailboxes stays as `get_free_id` left it.
set_free_id-get_free_id :
    (s : Server) (i : ℕ) {s' : Server}
    → get_free_id s ≡ (pos i, s')
    → set_free_id s' i ≡ (pos 0, record s' { mb_id_pool = s.mb_id_pool })
unfolding set_free_id
set_free_id-get_free_id s i {s'} e =
    let free : IsFreeId s (pos i) s' =
      subst (λ (p : ℤ × Server). IsFreeId s p.0 p.1) e (get_free_id_lem s) in
    let p = s.mb_id_pool in
    rw (free.3) (
      ground
        (arith, bit_and-bit (bit_or p (bit i)) i, test_bit-bit_or p i i, bit_xor-bit_or p i free.1))
