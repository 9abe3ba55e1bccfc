-- ===== src/Mailbox/Deposit/Tests.antt =====
-- The senders 3 and 4 wait for the mailboxes 4 and 2, and the owner of 2 comes to wait for 3.
use cs551os.Prelude.{◌≡◌, refl, none, some, [], ◌∷◌, pos, done, fault, arith}
use cs551os.Mailbox.State.{Server}
use cs551os.Mailbox.Examples.{a_mail, waits}
use cs551os.Mailbox.Lookup.{get_mb_id, get_sender_local_id}
use cs551os.Mailbox.Deadlock.{first_wait}
use cs551os.Mailbox.Deadlock.Odd.{OddCircle}
use cs551os.Mailbox.Deposit.{with_context, sus_context_of, suspend_sender}
use cs551os.Mailbox.Deposit.Circle.{suspend_sender-Odd}
use cs551os.Mailbox.Tests.{request, crowded}

abbrev two_wait : Server
two_wait = record crowded {
  sus_context = none ∷ none ∷ none ∷ some (waits (pos 4)) ∷ some (waits (pos 2)) ∷ [];
}

local_id_22 : get_sender_local_id two_wait (pos 22) ≡ done (pos 2)
unfolding get_sender_local_id get_mb_id crowded
local_id_22 = refl

three_wait : OddCircle (with_context (request 22 0) a_mail (pos 3 ∷ []) two_wait (pos 2)) 2 3 4 []
unfolding with_context sus_context_of first_wait
three_wait = record {
  first = record {
    context = sus_context_of (request 22 0) a_mail (pos 3 ∷ []);
    here = refl;
    waits = refl;
  };
  others = (
    record { context = waits (pos 4); here = refl; waits = refl },
    record { context = waits (pos 2); here = refl; waits = refl },
    tt,
  );
  distinct = ((λ e. ground arith), tt, tt);
  apart = ((λ e. ground arith), (λ e. ground arith), tt);
}

suspend_sender-Odd_example : suspend_sender (request 22 0) a_mail two_wait (pos 3 ∷ []) [] ≡ fault
suspend_sender-Odd_example =
    suspend_sender-Odd (request 22 0) a_mail two_wait (pos 3 ∷ []) [] 2 3 4 [] none local_id_22 refl
      three_wait (omega arith)
