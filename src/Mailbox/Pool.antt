-- ===== src/Mailbox/Pool.antt =====
-- The bit map of mailbox ids: `get_free_id` and `set_free_id`.
pub mod Laws
use cs551os.Prelude.{
  ℕ, zero, suc, ◌+◌, Bool, ℤ, pos, minus_one, bit_or, bit_and, bit_xor, ◌==◌, if◌then◌else◌,
}
use cs551os.Prelude.Bits.{test_bit, bit}
use cs551os.Mailbox.State.{Server, max_mailboxes}

-- The loop of `get_free_id`, with `n` rounds left.
unfoldable pub free_id_loop : (n i : ℕ) → Server → ℤ × Server
free_id_loop zero i s = (minus_one, s)
free_id_loop (suc n) i s =
    let rest = free_id_loop n (i + 1) s in
    if test_bit s.mb_id_pool i == 0
    then (
      pos i,
      record s {
        mb_id_pool = bit_or s.mb_id_pool (bit i);
        num_active_mailboxes = s.num_active_mailboxes + 1;
      },
    )
    else rest

unfoldable pub get_free_id : Server → ℤ × Server
unfolding free_id_loop
get_free_id s = free_id_loop max_mailboxes 0 s

-- Called with the index of a slot of `mbList` only.
unfoldable pub set_free_id : Server → ℕ → ℤ × Server
set_free_id s mb_id =
    if bit_and s.mb_id_pool (bit mb_id) == 0
    then (minus_one, s)
    else (pos 0, record s { mb_id_pool = bit_xor s.mb_id_pool (bit mb_id) })
