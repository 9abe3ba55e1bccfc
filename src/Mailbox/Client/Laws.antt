-- ===== src/Mailbox/Client/Laws.antt =====
-- Registration by the library, and the check of senders after it.
use cs551os.Prelude.{
  ℕ, zero, suc, ◌≡◌, ◌≢◌, ◌∙◌, ap, sym, subst, inl, inr, List, [], ◌∷◌, ℤ, pos, minus_one, eq_int,
  done, ◌>>=◌, Bool-cases, arith,
}
use cs551os.Mailbox.State.{Message, MailBox, Server, Outcome, ret, mailbox}
use cs551os.Mailbox.Lookup.{sender_loop, valid_in, is_valid_sender}
use cs551os.Mailbox.Lookup.Laws.{Listed, IsRegistered}
use cs551os.Mailbox.Register.{do_register_mb}
use cs551os.Mailbox.Inv.{Inv}
use cs551os.Mailbox.Inv.Register.{do_register_mb-IsRegistered}
use cs551os.Mailbox.Client.{Caller, register_message}

sender_loop-Listed :
    (n : ℕ) (senders : List ℤ) (pid : ℤ)
    → Listed n senders pid
    → sender_loop n senders pid ≡ done (pos 1)
unfolding sender_loop
sender_loop-Listed zero senders pid h = absurd h
sender_loop-Listed (suc n) [] pid h = absurd h
sender_loop-Listed (suc n) (x ∷ senders) pid h = elim (Bool-cases (eq_int x pid)) [
  | inl here ↦ ground arith
  | inr other ↦ elim h [
    | inl e ↦ ground arith
    | inr later ↦ ground (arith, sender_loop-Listed n senders pid later)
  ]
]

valid_in-IsRegistered :
    (m : MailBox) (pid : ℤ)
    → m.owner_pid ≢ minus_one
    → IsRegistered m pid
    → valid_in m pid ≡ done (pos 1)
unfolding valid_in
valid_in-IsRegistered m pid alive h =
    ground (arith, sender_loop-Listed m.num_senders m.senders pid h)

-- In a server with the invariant, once the message of the library's `register_mb` has the answer 0,
-- the server finds the caller a valid sender to that mailbox, unless it is a destroyed one, and
-- whatever else the message held.
pub is_valid_sender-do_register_mb :
    (c : Caller) (mes : Message) (mb_id : ℤ) (s : Server) (o : Outcome) (m : MailBox)
    → Inv s
    → do_register_mb (register_message c mes mb_id) s ≡ done o
    → o.answer ≡ ret (pos 0)
    → mailbox o.server mb_id ≡ done m
    → m.owner_pid ≢ minus_one
    → is_valid_sender o.server mb_id c.pid ≡ done (pos 1)
unfolding is_valid_sender
is_valid_sender-do_register_mb c mes mb_id s o m v e zero_ there alive =
    let (m', there', listed) =
      do_register_mb-IsRegistered (register_message c mes mb_id) s o v e zero_ in
    let same : m' ≡ m = ground (arith, sym there' ∙ there) in
    ap (λ r. r >>= λ b. valid_in b c.pid) there
    ∙ valid_in-IsRegistered m c.pid alive (
        subst (λ b. IsRegistered b c.pid) same
          (listed (λ d. alive (sym (ap (λ b. b.owner_pid) same) ∙ d))))
