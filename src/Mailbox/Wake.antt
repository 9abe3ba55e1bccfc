-- ===== src/Mailbox/Wake.antt =====
-- Who waits, and which calls wake whom.
mod Tests
use cs551os.Prelude.{
  ℕ, zero, suc, ◌+◌, ◌≡◌, ◌∙◌, ap, refl, none, some, Option, List, [], ◌∷◌, ℤ, pos, minus_one,
  get_elem?, set, get_elem?-set_here, set-set, done, Gives, arith,
}
use cs551os.Mailbox.State.{
  Server, MailBox, Mail, Message, Effect, copy_bytes, revive, reply, ret, suspend, mailbox,
  put_mailbox, max_mailboxes,
}
use cs551os.Mailbox.Slots.{mailbox-slot, slot-mailbox}
use cs551os.Mailbox.Queue.{put_msg, get_msg, take_front, unsuspend_rx}
use cs551os.Mailbox.Queue.Laws.{IsQueue}
use cs551os.Mailbox.Inv.{BoxOk, Inv}
use cs551os.Mailbox.Lookup.{owner_loop, get_mb_id, valid_in, is_valid_sender}
use cs551os.Mailbox.Retrieve.{suspend_rx, do_retrieve, retrieve_from, answer_retrieve}
use cs551os.Mailbox.Deposit.{
  delivered, do_deposit, deposit_next, deposit_loop, deposit_one, route, judge, deliver, settle,
  finish_deposit,
}

-- A mailbox of the same owner in the place of another.
owner_loop-set :
    (n i k : ℕ) (slots : List (Option MailBox)) (pid : ℤ) (m m' : MailBox)
    → get_elem? slots k ≡ some (some m)
    → m'.owner_pid ≡ m.owner_pid
    → owner_loop n i (set slots k (some m')) pid ≡ owner_loop n i slots pid
unfolding owner_loop
owner_loop-set zero i k slots pid m m' here same = refl
owner_loop-set (suc n) i k [] pid m m' here same = absurd (ground arith)
owner_loop-set (suc n) i zero (slot ∷ slots) pid m m' here same =
    let is_m : slot ≡ some m = ground arith in rw (is_m, same) refl
owner_loop-set (suc n) i (suc k) (none ∷ slots) pid m m' here same = refl
owner_loop-set (suc n) i (suc k) (some b ∷ slots) pid m m' here same =
    rw (owner_loop-set n (i + 1) k slots pid m m' here same) refl

get_msg-empty :
    (m : MailBox) (q : List Mail)
    → IsQueue m q
    → m.num_messages ≡ 0
    → get_msg m ≡ done (minus_one, [], m)
unfolding get_msg take_front
get_msg-empty m [] ok none_in = rw ok.stored refl
get_msg-empty m (mail ∷ q) ok none_in = absurd (omega (arith, ok.counted, none_in))

-- The server in which the receiver of an empty mailbox waits.
abbrev waiting : Server → ℕ → MailBox → Message → Server
waiting s id m rx = put_mailbox s (pos id) (suspend_rx m rx)

-- What a deposit does for a receiver that waits.
abbrev woken_by : Message → List ℕ → List Effect
woken_by rx text = revive rx.who_p ∷ copy_bytes rx.m_source rx.p1 text ∷ reply rx.who_p ∷ []

module _ (s : Server) (id : ℕ) (m : MailBox) (rx : Message)
    (here : get_elem? s.mb_list id ≡ some (some m)) where
  waiting-slot : get_elem? (waiting s id m rx).mb_list id ≡ some (some (suspend_rx m rx))
  waiting-slot = get_elem?-set_here s.mb_list id (some (suspend_rx m rx)) here

  waiting-mailbox : mailbox (waiting s id m rx) (pos id) ≡ done (suspend_rx m rx)
  waiting-mailbox = slot-mailbox (waiting s id m rx) id waiting-slot

  get_mb_id-waiting : (pid : ℤ) → get_mb_id (waiting s id m rx) pid ≡ get_mb_id s pid
  unfolding get_mb_id suspend_rx
  get_mb_id-waiting pid =
      owner_loop-set max_mailboxes 0 id s.mb_list pid m (suspend_rx m rx) here refl

  -- The mailbox again, as the deposit leaves it: as it was.
  waiting-again : put_mailbox (waiting s id m rx) (pos id) (suspend_rx m rx) ≡ waiting s id m rx
  waiting-again = ap (λ l. record s { mb_list = l }) (set-set s.mb_list id (some (suspend_rx m rx)))

  is_valid_sender-waiting :
      (pid : ℤ) → is_valid_sender (waiting s id m rx) (pos id) pid ≡ is_valid_sender s (pos id) pid
  unfolding is_valid_sender valid_in suspend_rx
  is_valid_sender-waiting pid = rw (slot-mailbox s id here, waiting-mailbox) refl

  do_retrieve-suspends :
      BoxOk m
      → get_mb_id s rx.i1 ≡ done (pos id)
      → m.num_messages ≡ 0
      → do_retrieve rx s
        ≡ done (record { answer = suspend; server = waiting s id m rx; effects = [] })
  unfolding do_retrieve retrieve_from answer_retrieve
  do_retrieve-suspends ok owned empty =
      rw (owned, slot-mailbox s id here, get_msg-empty m ok.mails ok.queue empty) refl

  put_msg-woken :
      (mail : Mail)
      → m.num_messages ≡ 0
      → put_msg (suspend_rx m rx) mail ≡ done (pos 0, suspend_rx m rx, woken_by rx mail.bytes)
  unfolding put_msg suspend_rx unsuspend_rx
  put_msg-woken mail empty = rw empty refl

  deposit_one-wakes :
      (mail : Mail) (dest tx_pid : ℤ)
      → get_mb_id s dest ≡ done (pos id)
      → m.num_messages ≡ 0
      → is_valid_sender s (pos id) tx_pid ≡ done (pos 1)
      → deposit_one (waiting s id m rx) dest tx_pid mail
        ≡ done (delivered (waiting s id m rx) (woken_by rx mail.bytes))
  unfolding deposit_one route judge deliver settle
  deposit_one-wakes mail dest tx_pid owned empty valid =
      rw
        (
          get_mb_id-waiting dest,
          owned,
          is_valid_sender-waiting tx_pid,
          valid,
          waiting-mailbox,
          put_msg-woken mail empty,
        )
        (ap (λ t. done (delivered t (woken_by rx mail.bytes))) waiting-again)

-- A deposit to one process alone.
do_deposit-one :
    (s t : Server) (p : ℕ) (tx : Message) (text : List ℕ) (more : List ℤ) (effects : List Effect)
    → deposit_one s (pos (suc p)) tx.i1 (record { bytes = text; sender_id = tx.i1 })
      ≡ done (delivered t effects)
    → do_deposit (pos (suc p) ∷ (minus_one ∷ more)) text tx s
      ≡ done (record { answer = ret (pos 0); server = t; effects = effects })
unfolding do_deposit deposit_loop deposit_next finish_deposit
do_deposit-one s t p tx text more effects one = rw one refl

-- In a server with the invariant, a process with an empty mailbox that calls `retrieve` is
-- suspended, with nothing else done; and the next deposit to it alone, from any registered sender,
-- returns 0 and gives exactly that process the text: it is marked revived, the bytes go to the
-- address of its call, and it is answered.
pub do_deposit-do_retrieve :
    (s : Server) (id p : ℕ) (m : MailBox) (rx tx : Message) (text : List ℕ) (more : List ℤ)
    → Inv s
    → rx.i1 ≡ pos (suc p)
    → get_mb_id s rx.i1 ≡ done (pos id)
    → mailbox s (pos id) ≡ done m
    → m.num_messages ≡ 0
    → is_valid_sender s (pos id) tx.i1 ≡ done (pos 1)
    → Gives (do_retrieve rx s) (λ o.
      (o.answer ≡ suspend)
      × (o.effects ≡ [])
      × (do_deposit (rx.i1 ∷ (minus_one ∷ more)) text tx o.server
          ≡ done (record {
            answer = ret (pos 0);
            server = o.server;
            effects = revive rx.who_p ∷ copy_bytes rx.m_source rx.p1 text ∷ reply rx.who_p ∷ [];
          })))
do_deposit-do_retrieve s id p m rx tx text more v pid owned at_id empty valid =
    let (i, is_i, there) = mailbox-slot s (pos id) at_id in
    let here : get_elem? s.mb_list id ≡ some (some m) = ground arith in
    let mail : Mail = record { bytes = text; sender_id = tx.i1 } in
    let owned' : get_mb_id s (pos (suc p)) ≡ done (pos id) = rw pid at owned in
    (
      record { answer = suspend; server = waiting s id m rx; effects = [] },
      do_retrieve-suspends s id m rx here (v.boxes id m here) owned empty,
      (
        refl,
        refl,
        ap (λ d. do_deposit (d ∷ (minus_one ∷ more)) text tx (waiting s id m rx)) pid
            ∙ do_deposit-one (waiting s id m rx) (waiting s id m rx) p tx text more _
                (deposit_one-wakes s id m rx here mail (pos (suc p)) tx.i1 owned' empty valid),
      ),
    )
