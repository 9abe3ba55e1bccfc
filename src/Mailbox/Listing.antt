-- ===== src/Mailbox/Listing.antt =====
-- `do_get_av_mailboxes` and `do_get_senders`.
use cs551os.Prelude.{
  ℕ, zero, suc, ◌++◌, Option, none, some, List, [], ◌∷◌, map, ℤ, pos, minus_one, eq_int, is_neg, at,
  ltb, length, if◌then◌else◌, Run, done, fault, access, ◌>>=◌,
}
use cs551os.Mailbox.State.{
  Server, MailBox, Message, copy_ints, Outcome, max_senders, max_mailboxes, returns,
}
use cs551os.Mailbox.Register.{may_use}

-- The pairs written to `mailingList`, over `n` slots.
unfoldable pub av_loop : ℕ → List (Option MailBox) → (uid gid : ℤ) → Run (List (ℤ × ℤ))
unfolding may_use
av_loop zero slots uid gid = done []
av_loop (suc n) [] uid gid = fault
av_loop (suc n) (none ∷ slots) uid gid = av_loop n slots uid gid
av_loop (suc n) (some m ∷ slots) uid gid = do
  rest ← av_loop n slots uid gid
  done (if may_use m uid gid then (m.mb_id, m.owner_pid) ∷ rest else rest)

unfoldable pub flat_pairs : List (ℤ × ℤ) → List (Option ℤ)
flat_pairs [] = some minus_one ∷ some minus_one ∷ []
flat_pairs ((id, pid) ∷ ps) = some id ∷ some pid ∷ flat_pairs ps

-- `mailingList` has room for `MAX_MAILBOXES` pairs, the closing pair of -1 included.
unfoldable pub do_get_av_mailboxes : Message → Server → Run Outcome
unfolding av_loop flat_pairs
do_get_av_mailboxes m_in s = do
  ps ← av_loop max_mailboxes s.mb_list m_in.i2 m_in.i3
  if ltb (length ps) max_mailboxes
      then returns (pos 0) s (copy_ints m_in.m_source m_in.p1 (flat_pairs ps) ∷ [])
      else fault

-- The senders that are not negative, over `n` entries.
unfoldable pub senders_loop : ℕ → List ℤ → Run (List ℤ)
senders_loop zero senders = done []
senders_loop (suc n) [] = fault
senders_loop (suc n) (x ∷ senders) = do
  rest ← senders_loop n senders
  done (if is_neg x then rest else x ∷ rest)

-- `senderList` is copied with one int more than was written, and has room for `MAX_SENDERS`.
unfoldable pub senders_of : Option MailBox → ℤ → Message → Server → Run Outcome
unfolding senders_loop
senders_of none rx_pid m_in s = returns minus_one s []
senders_of (some m) rx_pid m_in s =
    if eq_int m.owner_pid rx_pid
    then (do
      l ← senders_loop max_senders m.senders
      if ltb (length l) max_senders
          then returns (pos 0) s (copy_ints m_in.m_source m_in.p1 (map some l ++ (none ∷ [])) ∷ [])
          else fault)
    else returns minus_one s []

-- `rx_pid` is a local variable that the code never writes: its value is a parameter.
unfoldable pub do_get_senders : (rx_pid : ℤ) → Message → Server → Run Outcome
unfolding senders_of
do_get_senders rx_pid m_in s = do
  slot ← access (at s.mb_list m_in.i4)
  senders_of slot rx_pid m_in s
