-- ===== src/Mailbox/Register.antt =====
-- `do_register_mb`, and the permission test that it shares with the listing.
use cs551os.Prelude.{
  ℕ, zero, suc, ◌+◌, Bool, not, ◌&&◌, ◌||◌, List, [], ◌∷◌, ℤ, pos, negsuc, minus_one, eq_int, word,
  bit_and, ◌==◌, set, if◌then◌else◌, Run, done, fault, ◌>>=◌,
}
use cs551os.Mailbox.State.{
  Server, MailBox, Message, Outcome, mailbox, put_mailbox, max_senders, user, group, everyone,
  returns,
}
use cs551os.Mailbox.Lookup.{set_sender_local_id}

-- The permission test of `do_get_av_mailboxes` and `do_register_mb`.
unfoldable pub may_use : MailBox → (uid gid : ℤ) → Bool
may_use m uid gid =
    not (bit_and (word m.perm) everyone == 0)
    || (not (bit_and (word m.perm) group == 0) && eq_int m.owner_gid gid)
    || (not (bit_and (word m.perm) user == 0) && eq_int m.owner_uid uid)

-- What the loop of `do_register_mb` finds in `senders`.
pub data Place : Type 0 where
  present : Place
  free : ℕ → Place
  full : Place

unfoldable pub place_loop : (n i : ℕ) → List ℤ → ℤ → Run Place
place_loop zero i senders pid = done full
place_loop (suc n) i [] pid = fault
place_loop (suc n) i (x ∷ senders) pid =
    let rest = place_loop n (i + 1) senders pid in
    if eq_int x pid then done present else if eq_int x minus_one then done (free i) else rest

unfoldable pub add_sender : MailBox → ℕ → ℤ → MailBox
add_sender m i pid = record m { senders = set m.senders i pid; num_senders = m.num_senders + 1 }

unfoldable pub register_at : Place → MailBox → Message → Server → Run Outcome
unfolding add_sender
register_at present m m_in s = returns (negsuc 1) s []
register_at full m m_in s = returns minus_one s []
register_at (free i) m m_in s = do
  (id, s') ← set_sender_local_id (put_mailbox s m_in.i4 (add_sender m i m_in.i1)) m_in.i1
  returns (pos 0) s' []

unfoldable pub do_register_mb : Message → Server → Run Outcome
unfolding may_use place_loop register_at
do_register_mb m_in s = do
  m ← mailbox s m_in.i4
  if may_use m m_in.i2 m_in.i3
      then (do p ← place_loop max_senders 0 m.senders m_in.i1; register_at p m m_in s)
      else returns minus_one s []
