-- ===== src/Mailbox/Retrieve.antt =====
-- `do_retrieve`.
use cs551os.Prelude.{
  true, ℕ, List, ℤ, negsuc, false, [], ◌∷◌, pos, minus_one, is_neg, if◌then◌else◌, Run, done, ◌>>=◌,
}
use cs551os.Mailbox.State.{
  Server, MailBox, Message, copy_bytes, suspend, Outcome, mailbox, put_mailbox, returns,
}
use cs551os.Mailbox.Queue.{get_msg}
use cs551os.Mailbox.Lookup.{get_mb_id}

-- The mailbox of a receiver that found no mail.
unfoldable pub suspend_rx : MailBox → Message → MailBox
suspend_rx m m_in = record m {
  rx_suspended = true;
  sus_end_p = m_in.who_p;
  sus_m_source = m_in.m_source;
  sus_p1 = m_in.p1;
}

-- What follows `getMsg`. The copied text is followed by its terminator and by indeterminate bytes.
unfoldable pub answer_retrieve : Message → Server → ℤ → ℤ × List ℕ × MailBox → Run Outcome
unfolding suspend_rx
answer_retrieve m_in s mb_id (r, text, m) =
    if is_neg r
    then done (record {
      answer = suspend;
      server = put_mailbox s mb_id (suspend_rx m m_in);
      effects = [];
    })
    else returns (pos 0) (put_mailbox s mb_id (record m { rx_suspended = false }))
        (copy_bytes m_in.m_source m_in.p1 text ∷ [])

-- What follows `get_mb_id`.
unfoldable pub retrieve_from : Message → Server → ℤ → Run Outcome
retrieve_from m_in s (negsuc n) = returns minus_one s []
retrieve_from m_in s (pos id) = do
  m ← mailbox s (pos id)
  x ← get_msg m
  answer_retrieve m_in s (pos id) x

unfoldable pub do_retrieve : Message → Server → Run Outcome
do_retrieve m_in s = do mb_id ← get_mb_id s m_in.i1; retrieve_from m_in s mb_id
