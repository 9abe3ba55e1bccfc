-- ===== src/Mailbox/Deposit/Circle.antt =====
-- What a deposit comes to that closes a circle of an odd number of senders.
use cs551os.Prelude.{ℕ, ◌<◌, ◌≡◌, refl, Option, some, List, ℤ, pos, at, length, done, fault, arith}
use cs551os.Mailbox.State.{Server, Mail, Message, SuspendContext, Effect}
use cs551os.Mailbox.Lookup.{get_sender_local_id}
use cs551os.Mailbox.Deadlock.Odd.{OddCircle, deadlock-Odd}
use cs551os.Mailbox.Deposit.{with_context, answer_deposit, walk_fuel, suspend_sender}

-- A sender with full mailboxes whose suspension closes a circle of an odd number of senders, from
-- three to ninety-nine, is not suspended and not told of the deadlock: the end of `do_deposit`
-- finds the deadlock, and then reads outside of `susContext`.
pub suspend_sender-Odd :
    (m_in : Message) (mail : Mail) (s : Server) (dests : List ℤ) (effects : List Effect) (a b c : ℕ)
    (ps : List (ℕ × ℕ)) (slot : Option SuspendContext)
    → get_sender_local_id s m_in.i1 ≡ done (pos a)
    → at s.sus_context (pos a) ≡ some slot
    → OddCircle (with_context m_in mail dests s (pos a)) a b c ps
    → length ps < 49
    → suspend_sender m_in mail s dests effects ≡ fault
unfolding suspend_sender answer_deposit
suspend_sender-Odd m_in mail s dests effects a b c ps slot local_id there circle lt =
    let t = with_context m_in mail dests s (pos a) in
    let (found, lost) = deadlock-Odd walk_fuel t a b c ps circle (omega arith) in
    rw (local_id, there, found, lost) refl
