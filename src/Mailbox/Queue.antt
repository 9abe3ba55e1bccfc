-- ===== src/Mailbox/Queue.antt =====
-- The queue of one mailbox: `putMsg`, `unsuspend_rx` and `getMsg`.
pub mod Laws
use cs551os.Prelude.{
  ℕ, ◌+◌, ◌-◌, Bool, true, Option, none, some, List, [], ◌∷◌, ◌++◌, ℤ, pos, minus_one, leb, ◌==◌,
  if◌then◌else◌, Run, done, fault, access, ◌>>=◌,
}
use cs551os.Mailbox.State.{MailBox, Mail, Effect, copy_bytes, revive, reply, mb_capacity}

-- The bytes before the terminator, as `strcpy` reads them; none in the array is an overread.
unfoldable pub c_string : List ℕ → Run (List ℕ)
c_string [] = fault
c_string (c ∷ cs) =
    let rest = c_string cs in if c == 0 then done [] else (do r ← rest; done (c ∷ r))

-- Hands the mail straight to the suspended receiver, and lets it run.
unfoldable pub unsuspend_rx : MailBox → Mail → List Effect
unsuspend_rx m mail =
    revive m.sus_end_p ∷ copy_bytes m.sus_m_source m.sus_p1 mail.bytes ∷ reply m.sus_end_p ∷ []

-- The result, the mailbox after the call, and the effects. The line `m->rx_suspended == 0;` of the
-- source compares and assigns nothing, so the flag stays.
unfoldable pub put_msg : MailBox → Mail → Run (ℤ × MailBox × List Effect)
unfolding unsuspend_rx
put_msg m mail =
    if leb mb_capacity m.num_messages
    then done (minus_one, m, [])
    else if m.rx_suspended
    then done (pos 0, m, unsuspend_rx m mail)
    else (do
      q ← access m.queue
      done (
        pos 0,
        record m { queue = some (q ++ (mail ∷ [])); num_messages = m.num_messages + 1 },
        [],
      ))

-- The result, the text that went to `msg->data`, and the mailbox after the call.
unfoldable pub take_front : MailBox → List Mail → Run (ℤ × List ℕ × MailBox)
unfolding c_string
take_front m [] = done (minus_one, [], m)
take_front m (mail ∷ rest) = do
  text ← c_string mail.bytes
  done (pos 0, text, record m { queue = some rest; num_messages = m.num_messages - 1 })

unfoldable pub get_msg : MailBox → Run (ℤ × List ℕ × MailBox)
unfolding take_front
get_msg m = do q ← access m.queue; take_front m q
