-- ===== src/Mailbox/Examples.antt =====
-- The queue and the deadlock check at concrete inputs.
use cs551os.Prelude.{
  ◌≡◌, refl, ◌↔◌, true, false, none, some, List, [], ◌∷◌, ℤ, pos, minus_one, replicate, done, arith,
}
use cs551os.Mailbox.State.{Server, MailBox, Mail, SuspendContext, boot}
use cs551os.Mailbox.Queue.{get_msg}
use cs551os.Mailbox.Queue.Laws.{
  Op, put, get, run, fifo, run_refines, put_all, handed, put_all-suspended,
}
use cs551os.Mailbox.Deadlock.{check_dead_lock, check_loop}
use cs551os.Mailbox.Deadlock.Chain.{Chain, check_dead_lock_iff}

-- An empty mailbox of process 8, and one whose receiver waits.
abbrev pub a_mail : Mail
a_mail = record { bytes = 104 ∷ 105 ∷ 0 ∷ []; sender_id = pos 7 }

abbrev pub a_box : MailBox
a_box = record {
  mb_id = pos 1;
  owner_pid = pos 8;
  owner_uid = pos 100;
  owner_gid = pos 200;
  perm = pos 1;
  senders = pos 7 ∷ replicate 9 minus_one;
  suspended_sender = replicate 10 minus_one;
  sus_sender_idx = 0;
  num_senders = 1;
  num_messages = 0;
  rx_suspended = false;
  sus_end_p = 0;
  sus_m_source = 0;
  sus_p1 = 0;
  queue = some [];
}

abbrev waiting_box : MailBox
waiting_box = record a_box { rx_suspended = true; sus_end_p = 8; sus_m_source = 8; sus_p1 = 4096 }

-- Two mails in, three requests for one.
abbrev two_in : List Op
two_in = put a_mail ∷ put (record a_mail { bytes = 33 ∷ 0 ∷ [] }) ∷ get ∷ get ∷ get ∷ []

run_refines_example : run a_box two_in ≡ fifo [] two_in
run_refines_example = run_refines two_in (record { queue = refl; count = refl; awake = refl })

put_all-suspended_example :
    (put_all waiting_box (a_mail ∷ a_mail ∷ [])
      ≡ done (waiting_box, handed waiting_box (a_mail ∷ a_mail ∷ [])))
    × (get_msg waiting_box ≡ done (minus_one, [], waiting_box))
put_all-suspended_example =
    put_all-suspended (a_mail ∷ a_mail ∷ [])
      (record { stored = refl; counted = refl; bounded = omega arith; idle = λ e. refl }) refl

-- The senders 3 and 4 wait for each other.
abbrev pub waits : ℤ → SuspendContext
waits id = record {
  msg = a_mail;
  suspended_for = id ∷ minus_one ∷ [];
  len_sus_for = 1;
  sus_end_p = 0;
  sus_m_source = 0;
  sus_p1 = 0;
  sus_p2 = 0;
}

abbrev circle : Server
circle = record boot {
  sus_context = none ∷ none ∷ none ∷ some (waits (pos 4)) ∷ some (waits (pos 3)) ∷ [];
}

check_dead_lock_iff_example :
    (check_dead_lock 2 circle (pos 3) ≡ done (pos 1)) ↔ Chain 2 circle (pos 3) (pos 3)
check_dead_lock_iff_example = check_dead_lock_iff 2 circle (pos 3)

circle_test : check_dead_lock 2 circle (pos 3) ≡ done (pos 1)
unfolding check_dead_lock check_loop
circle_test = refl
