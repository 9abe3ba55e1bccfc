-- ===== src/Mailbox/Inv/Reach.antt =====
-- The calls in any order, from the start of the server.
use cs551os.Prelude.{
  ℕ, zero, suc, ◌+◌, ◌≡◌, refl, ap, subst, ◌∙◌, Bool-cases, ltb, length, replicate, ◌≢◌, inl, inr,
  true, Option, none, some, access, at, eq_int, List, [], ◌∷◌, ℤ, pos, minus_one, Run, done, fault,
  ◌>>=◌, >>=-eq-done, arith,
}
use cs551os.Mailbox.State.{
  Server, MailBox, max_senders, Message, Outcome, boot, Mail, Effect, max_mailboxes,
}
use cs551os.Mailbox.Lookup.{get_mb_id, set_sender_local_id, entry_loop, get_sender_local_id}
use cs551os.Mailbox.Deposit.{do_deposit, suspend_sender}
use cs551os.Mailbox.Retrieve.{do_retrieve}
use cs551os.Mailbox.Lifetime.{do_create_mailbox, do_destroy_mailbox}
use cs551os.Mailbox.Register.{do_register_mb}
use cs551os.Mailbox.Listing.{do_get_av_mailboxes, av_loop, do_get_senders, senders_of, senders_loop}
use cs551os.Mailbox.Inv.{Inv, boot-Inv}
use cs551os.Mailbox.Inv.Calls.{do_deposit-Inv, do_retrieve-Inv}
use cs551os.Mailbox.Inv.Lifetime.{do_create_mailbox-Inv, do_destroy_mailbox-Inv}
use cs551os.Mailbox.Inv.Register.{do_register_mb-Inv, set_sender_local_id-stuck}

-- A system call with what it brings: the destinations and the text of a deposit, and the number
-- that `do_get_senders` finds in its variable.
pub data Call : Type 0 where
  deposit : List ℤ → List ℕ → Message → Call
  retrieve create_mb destroy_mb get_av_mb register : Message → Call
  get_senders : ℤ → Message → Call

-- The handler of each, with an allocator that returns zeroed memory.
unfoldable pub handle : Call → Server → Run Outcome
handle (deposit dest text m) s = do_deposit dest text m s
handle (retrieve m) s = do_retrieve m s
handle (create_mb m) s = do_create_mailbox true m s
handle (destroy_mb m) s = do_destroy_mailbox m s
handle (get_av_mb m) s = do_get_av_mailboxes m s
handle (register m) s = do_register_mb m s
handle (get_senders rx_pid m) s = do_get_senders rx_pid m s

-- A sequence of calls.
unfoldable pub serve : List Call → Server → Run Server
unfolding handle
serve [] s = done s
serve (c ∷ cs) s = do o ← handle c s; serve cs o.server

-- The servers that sequences of calls from any processes lead to.
pub data Reach : Server → Type 0 where
  start : Reach boot
  call : {s : Server} (c : Call) (o : Outcome) → Reach s → handle c s ≡ done o → Reach o.server

pub serve-Reach : (cs : List Call) (s t : Server) → Reach s → serve cs s ≡ done t → Reach t
unfolding serve
serve-Reach [] s t r h = let e : s ≡ t = ground arith in subst Reach e r
serve-Reach (c ∷ cs) s t r h =
    let (o, one, rest) = >>=-eq-done (handle c s) _ h in
    serve-Reach cs o.server t (call c o r one) rest

get_av-server :
    (m : Message) (s : Server) (o : Outcome) → do_get_av_mailboxes m s ≡ done o → o.server ≡ s
unfolding do_get_av_mailboxes
get_av-server m s o h =
    let (ps, listed, h₁) = >>=-eq-done (av_loop max_mailboxes s.mb_list m.i2 m.i3) _ h in
    elim (Bool-cases (ltb (length ps) max_mailboxes)) [
      | inl room ↦ ground arith
      | inr overflow ↦ absurd (ground arith)
    ]

get_senders-server :
    (rx_pid : ℤ) (m : Message) (s : Server) (o : Outcome)
    → do_get_senders rx_pid m s ≡ done o
    → o.server ≡ s
unfolding do_get_senders senders_of
get_senders-server rx_pid m s o h =
    let (slot, there, h₁) = >>=-eq-done (access (at s.mb_list m.i4)) _ h in listed slot h₁
  where
    listed : (slot : Option MailBox) → senders_of slot rx_pid m s ≡ done o → o.server ≡ s
    listed none e = ground arith
    listed (some b) e = elim (Bool-cases (eq_int b.owner_pid rx_pid)) [
      | inl owned ↦
          let (l, read, e₁) = >>=-eq-done (senders_loop max_senders b.senders) _ (rw owned at e) in
          elim (Bool-cases (ltb (length l) max_senders)) [
            | inl room ↦ ground arith
            | inr overflow ↦ absurd (ground arith)
          ]
      | inr other ↦ ground arith
    ]

handle-Inv : (c : Call) (s : Server) (o : Outcome) → Inv s → handle c s ≡ done o → Inv o.server
unfolding handle
handle-Inv (deposit dest text m) s o v h = do_deposit-Inv dest text m s o v h
handle-Inv (retrieve m) s o v h = do_retrieve-Inv m s o v h
handle-Inv (create_mb m) s o v h = do_create_mailbox-Inv m s o v h
handle-Inv (destroy_mb m) s o v h = do_destroy_mailbox-Inv m s o v h
handle-Inv (get_av_mb m) s o v h = rw (get_av-server m s o h) v
handle-Inv (register m) s o v h = do_register_mb-Inv m s o v h
handle-Inv (get_senders rx_pid m) s o v h = rw (get_senders-server rx_pid m s o h) v

-- After any sequence of calls, with zeroed memory for new mailboxes, every mailbox counts its
-- mails, holds at most `MB_CAPACITY` of them, has none while its receiver is suspended, and (unless
-- it is destroyed) keeps its registered senders in front; and `senderDB` still holds its initial
-- zeros.
pub Reach-Inv : {s : Server} → Reach s → Inv s
Reach-Inv start = boot-Inv
Reach-Inv (call {s} c o r h) = handle-Inv c s o (Reach-Inv r) h

-- After any sequence of calls, a process for which `get_mb_id` answers -1 gets no local id when it
-- registers: `set_sender_local_id` answers -1 and records nothing.
set_sender_local_id-Reach :
    {s : Server} (pid : ℤ)
    → Reach s
    → get_mb_id s pid ≡ done minus_one
    → set_sender_local_id s pid ≡ done (minus_one, s)
set_sender_local_id-Reach {s} pid r e =
    set_sender_local_id-stuck s pid (Reach-Inv r) ∙ ap (λ m. m >>= λ id. done (id, s)) e

-- No other number is found among zeros.
entry_loop-zeros :
    (n i : ℕ) (pid : ℤ) → pid ≢ pos 0 → entry_loop n i (replicate n (pos 0)) pid ≡ done minus_one
unfolding entry_loop
entry_loop-zeros zero i pid ne = refl
entry_loop-zeros (suc n) i pid ne = ground (arith, entry_loop-zeros n (i + 1) pid ne)

no_local_id :
    (s : Server) (pid : ℤ)
    → Inv s
    → pid ≢ pos 0
    → get_mb_id s pid ≡ done minus_one
    → get_sender_local_id s pid ≡ done minus_one
unfolding get_sender_local_id
no_local_id s pid v ne e = rw (e, v.db) (entry_loop-zeros 100 0 pid ne)

-- After any sequence of calls in which `malloc` gives zeroed memory, a process other than 0 for
-- which `get_mb_id` answers -1 has the local id -1, for which there is no context, and cannot be
-- suspended: the end of `do_deposit` with full mailboxes among its destinations reads
-- `susContext[-1]`.
pub suspend_sender-fault :
    {s : Server} (m_in : Message) (mail : Mail) (dests : List ℤ) (effects : List Effect)
    → Reach s
    → m_in.i1 ≢ pos 0
    → get_mb_id s m_in.i1 ≡ done minus_one
    → (get_sender_local_id s m_in.i1 ≡ done minus_one)
      × (at s.sus_context minus_one ≡ none)
      × (suspend_sender m_in mail s dests effects ≡ fault)
unfolding suspend_sender
suspend_sender-fault {s} m_in mail dests effects r ne e =
    let no_id = no_local_id s m_in.i1 (Reach-Inv r) ne e in (no_id, refl, rw no_id refl)
