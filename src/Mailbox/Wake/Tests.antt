-- ===== src/Mailbox/Wake/Tests.antt =====
-- A receiver that waits, and a sender that waits.
use cs551os.Prelude.{
  ◌+◌, ◌≤◌, ◌≡◌, refl, false, some, get_elem?, List, [], ◌∷◌, pos, minus_one, Run, done, Gives,
}
use cs551os.Mailbox.State.{
  Server, MailBox, Effect, Outcome, boot, ret, suspend, revive, copy_bytes, reply, mailbox,
}
use cs551os.Mailbox.Examples.{a_box}
use cs551os.Mailbox.Queue.{put_msg, get_msg}
use cs551os.Mailbox.Lookup.{get_mb_id, is_valid_sender, valid_in}
use cs551os.Mailbox.Deposit.{do_deposit, deposit_one, deliver, settle, judge, route}
use cs551os.Mailbox.Retrieve.{do_retrieve, retrieve_from, answer_retrieve}
use cs551os.Mailbox.Inv.Reach.{Call, retrieve, handle, serve, Reach-Inv}
use cs551os.Mailbox.Wake.{do_deposit-do_retrieve}
use cs551os.Mailbox.Quiet.{serve_effects, wakes_any, serve_effects-NoDeposit}
use cs551os.Mailbox.Woken.{AllWoken}
use cs551os.Mailbox.Woken.Counts.{waiting, replies, revivals}
use cs551os.Mailbox.Woken.Deposits.{WaitsOr, do_deposit-AllWoken}
use cs551os.Mailbox.Tests.{outcome_of, request, hello, to_8, server_of, ready, ready-Reach}

abbrev box_8 : MailBox
box_8 = record a_box {
  senders =
      pos 7
      ∷ (minus_one
          ∷ (minus_one
              ∷ (minus_one
                  ∷ (minus_one
                      ∷ (minus_one
                          ∷ (minus_one ∷ (minus_one ∷ (minus_one ∷ (minus_one ∷ [])))))))));
}

box_8_ok : mailbox ready (pos 1) ≡ done box_8
unfolding mailbox ready
box_8_ok = refl

valid_7 : is_valid_sender ready (pos 1) (pos 7) ≡ done (pos 1)
unfolding is_valid_sender valid_in ready mailbox
valid_7 = refl

owned_8 : get_mb_id ready (pos 8) ≡ done (pos 1)
unfolding get_mb_id ready
owned_8 = refl

do_deposit-do_retrieve_example : Gives (do_retrieve (request 8 0) ready) (λ o.
    (o.answer ≡ suspend)
    × (o.effects ≡ [])
    × (do_deposit (pos 8 ∷ (minus_one ∷ [])) hello (request 7 0) o.server
        ≡ done (record {
          answer = ret (pos 0);
          server = o.server;
          effects = revive 8 ∷ copy_bytes 8 4096 hello ∷ reply 8 ∷ [];
        })))
do_deposit-do_retrieve_example =
    do_deposit-do_retrieve ready 1 7 box_8 (request 8 0) (request 7 0) hello []
      (Reach-Inv ready-Reach) refl owned_8 box_8_ok refl valid_7

-- Ten mails fill the mailbox of 8, and 7 waits with the eleventh.
abbrev eleven : List Call
eleven = to_8 ∷ to_8 ∷ to_8 ∷ to_8 ∷ to_8 ∷ to_8 ∷ to_8 ∷ to_8 ∷ to_8 ∷ to_8 ∷ to_8 ∷ []

abbrev full : Server
full = server_of (serve eleven ready)

abbrev pair_of : Run (Server × List Effect) → Server × List Effect
pair_of (done x) = x
pair_of r = (boot, [])

abbrev two_mails : List Call
two_mails = retrieve (request 8 0) ∷ retrieve (request 8 0) ∷ []

-- 7 is suspended in slot 0, and waits for mailbox 1.
seven_waits :
    get_elem? full.sus_context 0
    ≡ some (
        some (record {
          msg = record { bytes = hello; sender_id = pos 7 };
          suspended_for = pos 1 ∷ [];
          len_sus_for = 1;
          sus_end_p = 7;
          sus_m_source = 7;
          sus_p1 = 4096;
          sus_p2 = 8192;
        }))
unfolding serve handle ready do_deposit deposit_one route judge deliver settle put_msg
    is_valid_sender valid_in get_mb_id mailbox cs551os.Mailbox.Deposit.note_suspended
    cs551os.Mailbox.Deposit.suspend_sender cs551os.Mailbox.Lookup.get_sender_local_id
    cs551os.Mailbox.Deadlock.check_dead_lock
seven_waits = refl

abbrev after_two : Server × List Effect
after_two = pair_of (serve_effects two_mails full)

after_two_ok : serve_effects two_mails full ≡ done (after_two.0, after_two.1)
unfolding serve_effects serve handle ready do_deposit deposit_one route judge deliver settle put_msg
    is_valid_sender valid_in get_mb_id mailbox do_retrieve get_msg
    cs551os.Mailbox.Deposit.note_suspended cs551os.Mailbox.Deposit.suspend_sender
    cs551os.Mailbox.Lookup.get_sender_local_id cs551os.Mailbox.Deadlock.check_dead_lock
    retrieve_from answer_retrieve
after_two_ok = refl

serve_effects-NoDeposit_example : wakes_any after_two.1 ≡ false
serve_effects-NoDeposit_example =
    serve_effects-NoDeposit two_mails full after_two.0 after_two.1
      ((λ none_. absurd none_), ((λ none_. absurd none_), tt)) after_two_ok

-- 8 waits, and 7 sends to it.
abbrev asleep : Server
asleep = (outcome_of (do_retrieve (request 8 0) ready)).server

abbrev woken : Outcome
woken = outcome_of (do_deposit (pos 8 ∷ (minus_one ∷ [])) hello (request 7 0) asleep)

woken_ok : do_deposit (pos 8 ∷ (minus_one ∷ [])) hello (request 7 0) asleep ≡ done woken
unfolding ready do_deposit deposit_one route judge deliver settle put_msg is_valid_sender valid_in
    get_mb_id mailbox do_retrieve get_msg retrieve_from answer_retrieve
woken_ok = refl

do_deposit-AllWoken_example :
    AllWoken (WaitsOr 7 asleep) woken.effects
    × (waiting woken.server.sus_context + replies woken.effects
        ≤ waiting asleep.sus_context + 1 + revivals woken.effects)
do_deposit-AllWoken_example =
    do_deposit-AllWoken (pos 8 ∷ (minus_one ∷ [])) hello (request 7 0) asleep woken woken_ok
