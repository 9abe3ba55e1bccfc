-- ===== src/Mailbox/Lifetime.antt =====
-- `do_create_mailbox`, `do_destroy_mailbox` and what they call.
use cs551os.Prelude.{
  ℕ, ◌*◌, Bool, false, Option, none, some, [], ℤ, pos, negsuc, minus_one, get_elem?, ltb, ◌==◌,
  replicate, if◌then◌else◌, Run, fault, access, ◌>>=◌,
}
use cs551os.Mailbox.State.{
  Server, MailBox, Message, Outcome, put_mailbox, max_senders, max_mailboxes, returns,
}
use cs551os.Mailbox.Pool.{get_free_id, set_free_id}

unfoldable pub destroyed : MailBox → MailBox
destroyed m = record m {
  owner_pid = minus_one;
  mb_id = minus_one;
  num_senders = 0;
  num_messages = 0;
  queue = some [];
}

unfoldable pub destroy_slot : Option MailBox → ℕ → Server → Run Outcome
unfolding destroyed
destroy_slot none id s = returns (pos 0) s []
destroy_slot (some m) id s =
    let (r, s') = set_free_id (put_mailbox s (pos id) (destroyed m)) id in returns r s' []

-- The test is `del_mb_id < MAX_MAILBOXES` alone: a negative id reads outside of `mbList`.
unfoldable pub destroy_id : ℤ → Server → Run Outcome
unfolding destroy_slot
destroy_id (negsuc n) s = fault
destroy_id (pos id) s =
    if ltb id max_mailboxes
    then (do slot ← access (get_elem? s.mb_list id); destroy_slot slot id s)
    else returns (pos 0) s []

unfoldable pub do_destroy_mailbox : Message → Server → Run Outcome
unfolding destroy_id
do_destroy_mailbox m_in s = destroy_id m_in.i4 s

-- `create_mailbox` up to `addMailBox`. The fields of `sus_*` are written before they are read;
-- `front` is not written: `zeroed` tells if `malloc` returned zeros there.
unfoldable pub new_mailbox : (zeroed : Bool) → Message → MailBox
new_mailbox zeroed m_in = record {
  mb_id = minus_one;
  owner_pid = m_in.i1;
  owner_uid = m_in.i2;
  owner_gid = m_in.i3;
  perm = m_in.i4;
  senders = replicate max_senders minus_one;
  suspended_sender = replicate max_senders minus_one;
  sus_sender_idx = 0;
  num_senders = 0;
  num_messages = 0;
  rx_suspended = false;
  sus_end_p = 0;
  sus_m_source = 0;
  sus_p1 = 0;
  queue = if zeroed then some [] else none;
}

-- `addMailBox`, and the id that `create_mailbox` stores in the mailbox.
unfoldable pub add_mail_box : Server → MailBox → ℤ × Server
add_mail_box s m = let (id, s') = get_free_id s in (id, put_mailbox s' id (record m { mb_id = id }))

-- The first call allocates the two tables.
unfoldable pub initialized : Server → Server
initialized s = if s.initialize == 50 then s else record s {
  initialize = 50;
  mb_list = replicate max_mailboxes none;
  sus_context = replicate (max_mailboxes * max_senders) none;
}

unfoldable pub do_create_mailbox : (zeroed : Bool) → Message → Server → Run Outcome
unfolding new_mailbox add_mail_box initialized
do_create_mailbox zeroed m_in s =
    let (id, s') = add_mail_box (initialized s) (new_mailbox zeroed m_in) in returns id s' []
