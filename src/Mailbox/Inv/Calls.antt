-- ===== src/Mailbox/Inv/Calls.antt =====
-- Every call keeps the invariant of the server.
use cs551os.Prelude.{
  ℕ, ◌≡◌, ◌∙◌, subst, inl, inr, false, some, List, [], ℤ, pos, negsuc, is_neg, get_elem?,
  get_elem?-set_cases, set, done, >>=-eq-done, arith, Bool-cases, Option-cases,
}
use cs551os.Mailbox.State.{Server, MailBox, Message, Outcome, mailbox, put_mailbox}
use cs551os.Mailbox.Slots.{mailbox-slot}
use mathlib.Core.List.{tail}
use cs551os.Mailbox.Queue.{get_msg, take_front}
use cs551os.Mailbox.Queue.Laws.{get_msg-IsQueue}
use cs551os.Mailbox.Inv.{BoxOk, Inv}
use cs551os.Mailbox.Deposit.{do_deposit}
use cs551os.Mailbox.Deposit.Change.{SafeSlot-BoxOk}
use cs551os.Mailbox.Deposit.Auth.{do_deposit-Safe}
use cs551os.Mailbox.Lookup.{get_mb_id}
use cs551os.Mailbox.Retrieve.{suspend_rx, answer_retrieve, retrieve_from, do_retrieve}

-- A mailbox in order takes the place of another.
pub put_mailbox-Inv :
    (s : Server) (id : ℤ) (m : MailBox) → Inv s → BoxOk m → Inv (put_mailbox s id m)
put_mailbox-Inv s (negsuc n) m v ok = record { boxes = v.boxes; db = v.db }
put_mailbox-Inv s (pos i) m v ok = record { boxes = boxes; db = v.db }
  where
    boxes : (j : ℕ) (b : MailBox) → get_elem? (set s.mb_list i (some m)) j ≡ some (some b) → BoxOk b
    boxes j b h = elim (get_elem?-set_cases s.mb_list i j (some m) h) [
      | inl new ↦ let is_m : m ≡ b = ground arith in subst BoxOk is_m ok
      | inr old ↦ v.boxes j b old
    ]

pub do_deposit-Inv :
    (dest : List ℤ) (text : List ℕ) (m_in : Message) (s : Server) (o : Outcome)
    → Inv s
    → do_deposit dest text m_in s ≡ done o
    → Inv o.server
do_deposit-Inv dest text m_in s o v h =
    let (slots, db) = do_deposit-Safe dest text m_in s o h in
    record { boxes = λ i. SafeSlot-BoxOk (slots i) (v.boxes i); db = db ∙ v.db }

suspend_rx-BoxOk :
    (m : MailBox) (m_in : Message) (b : BoxOk m) → b.mails ≡ [] → BoxOk (suspend_rx m m_in)
unfolding suspend_rx
suspend_rx-BoxOk m m_in b empty = record {
  mails = b.mails;
  queue = record {
    stored = b.queue.stored;
    counted = b.queue.counted;
    bounded = b.queue.bounded;
    idle = λ _. empty;
  };
  packed = b.packed;
}

get_msg-senders :
    (m m' : MailBox) {r : ℤ} {text : List ℕ}
    → get_msg m ≡ done (r, text, m')
    → (m'.owner_pid ≡ m.owner_pid) × (m'.senders ≡ m.senders) × (m'.num_senders ≡ m.num_senders)
unfolding get_msg take_front
get_msg-senders m m' e = elim (Option-cases m.queue) [
  | inl wild ↦ (ground arith, ground arith, ground arith)
  | inr (q, there) ↦ (ground arith, ground arith, ground arith)
]

fed-BoxOk :
    (m m' : MailBox) {r : ℤ} {text : List ℕ}
    → BoxOk m
    → get_msg m ≡ done (r, text, m')
    → BoxOk (record m' { rx_suspended = false })
fed-BoxOk m m' b e =
    let (queue, fails) = get_msg-IsQueue b.queue e in
    let (owner, senders, num) = get_msg-senders m m' e in
    record {
      mails = tail b.mails;
      queue = record {
        stored = queue.stored;
        counted = queue.counted;
        bounded = queue.bounded;
        idle = λ awake. absurd (ground arith);
      };
      packed = λ alive. rw (senders, num) (b.packed (λ none_. alive (owner ∙ none_)));
    }

answer_retrieve-Inv :
    (m_in : Message) (s : Server) (id : ℤ) (m : MailBox) (r : ℤ) (text : List ℕ) (m' : MailBox)
    (o : Outcome)
    → Inv s
    → BoxOk m
    → get_msg m ≡ done (r, text, m')
    → answer_retrieve m_in s id (r, text, m') ≡ done o
    → Inv o.server
unfolding answer_retrieve
answer_retrieve-Inv m_in s id m r text m' o v b got h = elim (Bool-cases (is_neg r)) [
  | inl empty ↦
      let e : o.server ≡ put_mailbox s id (suspend_rx m' m_in) = ground arith in
      let (still, no_mail) = (get_msg-IsQueue b.queue got).1 empty in
      let ok : BoxOk (suspend_rx m' m_in) = rw still (suspend_rx-BoxOk m m_in b no_mail) in
      rw e (put_mailbox-Inv s id (suspend_rx m' m_in) v ok)
  | inr fed ↦
      let e : o.server ≡ put_mailbox s id (record m' { rx_suspended = false }) = ground arith in
      rw e (put_mailbox-Inv s id (record m' { rx_suspended = false }) v (fed-BoxOk m m' b got))
]

retrieve_from-Inv :
    (m_in : Message) (s : Server) (id : ℤ) (o : Outcome)
    → Inv s
    → retrieve_from m_in s id ≡ done o
    → Inv o.server
unfolding retrieve_from
retrieve_from-Inv m_in s (negsuc n) o v h = let e : o.server ≡ s = ground arith in rw e v
retrieve_from-Inv m_in s (pos id) o v h =
    let (m, at_id, h₁) = >>=-eq-done (mailbox s (pos id)) _ h in
    let (x, got, h₂) = >>=-eq-done (get_msg m) _ h₁ in
    let (i, is_i, there) = mailbox-slot s (pos id) at_id in
    answer_retrieve-Inv m_in s (pos id) m x.0 x.1 x.2 o v (v.boxes i m there) got h₂

pub do_retrieve-Inv :
    (m_in : Message) (s : Server) (o : Outcome) → Inv s → do_retrieve m_in s ≡ done o → Inv o.server
unfolding do_retrieve
do_retrieve-Inv m_in s o v h =
    let (id, found, h₁) = >>=-eq-done (get_mb_id s m_in.i1) _ h in
    retrieve_from-Inv m_in s id o v h₁
