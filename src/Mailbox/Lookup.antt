-- ===== src/Mailbox/Lookup.antt =====
-- The searches: `get_mb_id`, the local ids of the senders, and `isValidSender`.
pub mod Laws
use cs551os.Prelude.{
  ℕ, zero, suc, ◌+◌, ◌*◌, ◌-◌, Bool, Option, none, some, List, [], ◌∷◌, ℤ, pos, minus_one, eq_int,
  is_neg, set, drop, if◌then◌else◌, Run, done, fault, ◌>>=◌,
}
use cs551os.Mailbox.State.{Server, MailBox, mailbox, max_mailboxes, max_senders}

-- The loop of `get_mb_id` over the slots from `i`, with `n` rounds left.
unfoldable pub owner_loop : (n i : ℕ) → List (Option MailBox) → ℤ → Run ℤ
owner_loop zero i slots pid = done minus_one
owner_loop (suc n) i [] pid = fault
owner_loop (suc n) i (none ∷ slots) pid = fault
owner_loop (suc n) i (some m ∷ slots) pid =
    if eq_int m.owner_pid pid then done (pos i) else owner_loop n (i + 1) slots pid

unfoldable pub get_mb_id : Server → ℤ → Run ℤ
unfolding owner_loop
get_mb_id s pid = owner_loop max_mailboxes 0 s.mb_list pid

-- The loops over `senderDB` from index `i`: the first entry that holds `pid`.
unfoldable pub entry_loop : (n i : ℕ) → List ℤ → ℤ → Run ℤ
entry_loop zero i db pid = done minus_one
entry_loop (suc n) i [] pid = fault
entry_loop (suc n) i (e ∷ db) pid =
    if eq_int e pid then done (pos i) else entry_loop n (i + 1) db pid

unfoldable pub get_sender_local_id : Server → ℤ → Run ℤ
unfolding entry_loop
get_sender_local_id s pid = do
  id ← get_mb_id s pid
  if eq_int id minus_one
      then entry_loop (max_senders * max_mailboxes) 0 s.sender_db pid
      else done id

-- What is left of `set_sender_local_id` once the first free entry is known.
unfoldable pub claim_entry : Server → ℤ → ℤ → ℤ × Server
claim_entry s pid (pos i) = (pos i, record s { sender_db = set s.sender_db i pid })
claim_entry s pid (ℤ.negsuc i) = (ℤ.negsuc i, s)

-- What follows `get_mb_id` there.
unfoldable pub claim_for : Server → ℤ → ℤ → Run (ℤ × Server)
unfolding entry_loop claim_entry
claim_for s pid id =
    if eq_int id minus_one
    then (do
      i ←
          entry_loop (max_senders * max_mailboxes - max_mailboxes) max_mailboxes
            (drop max_mailboxes s.sender_db) minus_one
      done (claim_entry s pid i))
    else done (id, s)

unfoldable pub set_sender_local_id : Server → ℤ → Run (ℤ × Server)
set_sender_local_id s pid = do id ← get_mb_id s pid; claim_for s pid id

-- The loop of `isValidSender` over `senders`, for `num_senders` rounds.
unfoldable pub sender_loop : ℕ → List ℤ → ℤ → Run ℤ
sender_loop zero senders pid = done (pos 0)
sender_loop (suc n) [] pid = fault
sender_loop (suc n) (x ∷ senders) pid =
    if eq_int x pid then done (pos 1) else sender_loop n senders pid

unfoldable pub valid_in : MailBox → ℤ → Run ℤ
unfolding sender_loop
valid_in m sender_pid =
    if eq_int m.owner_pid minus_one
    then done minus_one
    else sender_loop m.num_senders m.senders sender_pid

unfoldable pub is_valid_sender : Server → ℤ → ℤ → Run ℤ
is_valid_sender s dest_id sender_pid = do m ← mailbox s dest_id; valid_in m sender_pid
