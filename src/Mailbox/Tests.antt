-- ===== src/Mailbox/Tests.antt =====
-- Runs of the mailbox server, and its theorems at concrete inputs.
use cs551os.Prelude.{
  ℕ, ◌≡◌, ◌≢◌, refl, List, [], ◌∷◌, pos, minus_one, none, at, Run, done, fault, arith,
}
use cs551os.Mailbox.State.{Server, MailBox, Message, Outcome, ret, suspend, boot, mailbox}
use cs551os.Mailbox.Examples.{a_box}
use cs551os.Mailbox.Pool.{get_free_id}
use cs551os.Mailbox.Pool.Laws.{IsFreeId, get_free_id_lem}
use cs551os.Mailbox.Queue.{put_msg}
use cs551os.Mailbox.Lookup.{
  get_mb_id, is_valid_sender, valid_in, get_sender_local_id, set_sender_local_id, claim_for,
}
use cs551os.Mailbox.Lookup.Laws.{Search, get_mb_id_lem}
use cs551os.Mailbox.Deposit.{do_deposit, deposit_one, deliver, settle, judge, route, suspend_sender}
use cs551os.Mailbox.Deposit.Change.{Safe}
use cs551os.Mailbox.Deposit.Auth.{do_deposit-Safe}
use cs551os.Mailbox.Lifetime.{do_create_mailbox}
use cs551os.Mailbox.Register.{do_register_mb}
use cs551os.Mailbox.Client.{Caller}
use cs551os.Mailbox.Client.Laws.{is_valid_sender-do_register_mb}
use cs551os.Mailbox.Inv.{Inv}
use cs551os.Mailbox.Inv.Reach.{
  Call, deposit, create_mb, register, handle, serve, Reach, start, serve-Reach, Reach-Inv,
  suspend_sender-fault,
}

-- A request of process `pid`, from slot and endpoint `pid`, for permission or mailbox `i4`.
abbrev pub request : ℕ → ℕ → Message
request pid i4 = record {
  m_source = pid;
  who_p = pid;
  i1 = pos pid;
  i2 = pos 100;
  i3 = pos 200;
  i4 = pos i4;
  p1 = 4096;
  p2 = 8192;
}

abbrev pub hello : List ℕ
hello = 104 ∷ 105 ∷ 0 ∷ []

-- Processes 7 and 8 create mailboxes open to everyone, and 7 registers at that of 8.
abbrev setup : List Call
setup = create_mb (request 7 1) ∷ create_mb (request 8 1) ∷ register (request 7 1) ∷ []

abbrev pub to_8 : Call
to_8 = deposit (pos 8 ∷ minus_one ∷ []) hello (request 7 0)

abbrev pub server_of : Run Server → Server
server_of (done s) = s
server_of r = boot

abbrev pub outcome_of : Run Outcome → Outcome
outcome_of (done o) = o
outcome_of r = record { answer = suspend; server = boot; effects = [] }

unfoldable pub ready : Server
unfolding serve do_create_mailbox do_register_mb get_free_id mailbox set_sender_local_id claim_for
    get_mb_id boot
ready = server_of (serve setup boot)

ready-served : serve setup boot ≡ done ready
unfolding ready
ready-served = refl

pub ready-Reach : Reach ready
ready-Reach = serve-Reach setup boot ready start ready-served

Reach-Inv_example : Inv ready
Reach-Inv_example = Reach-Inv ready-Reach

-- 7 sends to 8, and 8 receives the text.
abbrev sent : Outcome
sent = outcome_of (handle to_8 ready)

sent_ok : handle to_8 ready ≡ done sent
unfolding handle ready do_deposit deposit_one route judge deliver settle put_msg is_valid_sender
    valid_in
sent_ok = refl

do_deposit-Safe_example : Safe (pos 7) ready sent.server
unfolding handle
do_deposit-Safe_example =
    do_deposit-Safe (pos 8 ∷ minus_one ∷ []) hello (request 7 0) ready sent sent_ok

-- 8 registers with the mailbox of 7.
abbrev reg_8 : Message
reg_8 = record (request 8 1) { i4 = pos 0 }

abbrev registered : Outcome
registered = outcome_of (handle (register reg_8) ready)

registered_ok : handle (register reg_8) ready ≡ done registered
unfolding handle ready do_register_mb
registered_ok = refl

registered_zero : registered.answer ≡ ret (pos 0)
unfolding handle ready do_register_mb
registered_zero = refl

-- Ten processes own the ten mailboxes.
abbrev ten : List Call
ten =
    create_mb (request 20 1)
    ∷ create_mb (request 21 1)
    ∷ create_mb (request 22 1)
    ∷ create_mb (request 23 1)
    ∷ create_mb (request 24 1)
    ∷ create_mb (request 25 1)
    ∷ create_mb (request 26 1)
    ∷ create_mb (request 27 1)
    ∷ create_mb (request 28 1)
    ∷ create_mb (request 29 1)
    ∷ []

unfoldable pub crowded : Server
unfolding serve do_create_mailbox get_free_id mailbox get_mb_id boot
crowded = server_of (serve ten boot)

crowded-served : serve ten boot ≡ done crowded
unfolding crowded
crowded-served = refl

crowded-Reach : Reach crowded
crowded-Reach = serve-Reach ten boot crowded start crowded-served

crowded-no_owner : get_mb_id crowded (pos 7) ≡ done minus_one
unfolding get_mb_id crowded
crowded-no_owner = refl

suspend_sender-fault_example :
    (get_sender_local_id crowded (pos 7) ≡ done minus_one)
    × (at crowded.sus_context minus_one ≡ none)
    × (suspend_sender
          (request 7 0)
          (record { bytes = hello; sender_id = pos 7 })
          crowded
          (pos 3 ∷ [])
          []
        ≡ fault)
suspend_sender-fault_example =
    suspend_sender-fault (request 7 0) (record { bytes = hello; sender_id = pos 7 }) (pos 3 ∷ []) []
      crowded-Reach (ground arith) crowded-no_owner

get_free_id_lem_example : let (id, s') = get_free_id ready in IsFreeId ready id s'
get_free_id_lem_example = get_free_id_lem ready

abbrev with_third : Server
with_third = let (id, s') = get_free_id ready in s'

with_third_ok : get_free_id ready ≡ (pos 2, with_third)
unfolding ready get_free_id
with_third_ok = refl

get_mb_id_lem_example : Search 10 0 crowded.mb_list (pos 25) (get_mb_id crowded (pos 25))
get_mb_id_lem_example = get_mb_id_lem crowded (pos 25)

-- The same registration by the library.
abbrev caller_8 : Caller
caller_8 = record { pid = pos 8; uid = pos 100; gid = pos 200 }

abbrev box_of : Run MailBox → MailBox
box_of (done m) = m
box_of r = a_box

abbrev registered_box : MailBox
registered_box = box_of (mailbox registered.server (pos 0))

registered_box_ok : mailbox registered.server (pos 0) ≡ done registered_box
unfolding handle ready do_register_mb mailbox
registered_box_ok = refl

registered_box_alive : registered_box.owner_pid ≢ minus_one
unfolding handle ready do_register_mb mailbox
registered_box_alive = ground arith

is_valid_sender-do_register_mb_example :
    is_valid_sender registered.server (pos 0) (pos 8) ≡ done (pos 1)
unfolding handle
is_valid_sender-do_register_mb_example =
    is_valid_sender-do_register_mb caller_8 (request 8 1) (pos 0) ready registered registered_box
      (Reach-Inv ready-Reach) registered_ok registered_zero registered_box_ok registered_box_alive
