-- ===== src/Mailbox/Quiet.antt =====
-- Which calls wake other processes.
use cs551os.Prelude.{
  ℕ, ◌≡◌, Bool, true, false, ◌||◌, none, some, Option, List, [], ◌∷◌, ◌++◌, ℤ, pos, negsuc, is_neg,
  ltb, at, eq_int, length, get_elem?, Run, done, access, subst, ◌>>=◌, >>=-eq-done, Bool-cases, inl,
  inr, arith,
}
use cs551os.Mailbox.State.{
  Server, MailBox, Message, Effect, copy_bytes, copy_ints, revive, reply, Outcome, mailbox,
  put_mailbox, max_mailboxes, max_senders,
}
use cs551os.Mailbox.Queue.{get_msg}
use cs551os.Mailbox.Lookup.{get_mb_id, set_sender_local_id}
use cs551os.Mailbox.Retrieve.{do_retrieve, retrieve_from, answer_retrieve}
use cs551os.Mailbox.Lifetime.{do_create_mailbox, do_destroy_mailbox, destroy_id, destroy_slot}
use cs551os.Mailbox.Register.{
  do_register_mb, register_at, place_loop, may_use, add_sender, Place, present, free, full,
}
use cs551os.Mailbox.Listing.{do_get_av_mailboxes, av_loop, do_get_senders, senders_of, senders_loop}
use cs551os.Mailbox.Inv.Reach.{
  Call, deposit, retrieve, create_mb, destroy_mb, get_av_mb, register, get_senders, handle,
}

-- The effect lets another process run.
abbrev pub wakes : Effect → Bool
wakes (copy_bytes to address bytes) = false
wakes (copy_ints to address ints) = false
wakes (revive slot) = true
wakes (reply slot) = true

abbrev pub wakes_any : List Effect → Bool
wakes_any [] = false
wakes_any (e ∷ es) = wakes e || wakes_any es

abbrev pub IsDeposit : Call → Type 0
IsDeposit (deposit dest text m) = Unit {0}
IsDeposit (retrieve m) = ⊥
IsDeposit (create_mb m) = ⊥
IsDeposit (destroy_mb m) = ⊥
IsDeposit (get_av_mb m) = ⊥
IsDeposit (register m) = ⊥
IsDeposit (get_senders rx_pid m) = ⊥

-- A sequence of calls with all that they do to other processes.
unfoldable pub serve_effects : List Call → Server → Run (Server × List Effect)
serve_effects [] s = done (s, [])
serve_effects (c ∷ cs) s = do
  o ← handle c s
  (t, effects) ← serve_effects cs o.server
  done (t, o.effects ++ effects)

-- No call of the list is a deposit.
abbrev pub NoDeposit : List Call → Type 0
NoDeposit [] = Unit {0}
NoDeposit (c ∷ cs) = (¬ IsDeposit c) × NoDeposit cs

wakes_any-append :
    (es fs : List Effect)
    → wakes_any es ≡ false
    → wakes_any fs ≡ false
    → wakes_any (es ++ fs) ≡ false
wakes_any-append [] fs e f = f
wakes_any-append (e ∷ es) fs h f = ground (arith, wakes_any-append es fs)

do_retrieve-quiet :
    (m : Message) (s : Server) (o : Outcome)
    → do_retrieve m s ≡ done o
    → wakes_any o.effects ≡ false
unfolding do_retrieve retrieve_from answer_retrieve
do_retrieve-quiet m s o h = let (id, found, h₁) = >>=-eq-done (get_mb_id s m.i1) _ h in quiet id h₁
  where
    quiet : (id : ℤ) → retrieve_from m s id ≡ done o → wakes_any o.effects ≡ false
    quiet (negsuc n) e = ground arith
    quiet (pos n) e =
        let (b, at_id, e₁) = >>=-eq-done (mailbox s (pos n)) _ e in
        let (x, got, e₂) = >>=-eq-done (get_msg b) _ e₁ in
        elim (Bool-cases (is_neg x.0)) [ inl empty ↦ ground arith | inr fed ↦ ground arith ]

do_destroy_mailbox-quiet :
    (m : Message) (s : Server) (o : Outcome)
    → do_destroy_mailbox m s ≡ done o
    → wakes_any o.effects ≡ false
unfolding do_destroy_mailbox destroy_slot destroy_id
do_destroy_mailbox-quiet m s o h = quiet m.i4 h
  where
    slot_quiet :
        (slot : Option MailBox) (id : ℕ)
        → destroy_slot slot id s ≡ done o
        → wakes_any o.effects ≡ false
    slot_quiet none id e = ground arith
    slot_quiet (some b) id e = ground arith

    quiet : (id : ℤ) → destroy_id id s ≡ done o → wakes_any o.effects ≡ false
    quiet (negsuc n) e = absurd (ground arith)
    quiet (pos n) e = elim (Bool-cases (ltb n max_mailboxes)) [
      | inl is_slot ↦
          let (slot, there, e₁) =
            >>=-eq-done (access (get_elem? s.mb_list n)) _ (rw is_slot at e) in
          slot_quiet slot n e₁
      | inr beyond ↦ ground arith
    ]

do_register_mb-quiet :
    (m : Message) (s : Server) (o : Outcome)
    → do_register_mb m s ≡ done o
    → wakes_any o.effects ≡ false
unfolding do_register_mb register_at
do_register_mb-quiet m s o h =
    let (b, at_id, h₁) = >>=-eq-done (mailbox s m.i4) _ h in
    elim (Bool-cases (may_use b m.i2 m.i3)) [
      | inl allowed ↦
          let (p, placed, h₂) =
            >>=-eq-done (place_loop max_senders 0 b.senders m.i1) _ (rw allowed at h₁) in
          quiet b p h₂
      | inr refused ↦ ground arith
    ]
  where
    quiet : (b : MailBox) (p : Place) → register_at p b m s ≡ done o → wakes_any o.effects ≡ false
    quiet b present e = ground arith
    quiet b full e = ground arith
    quiet b (free i) e =
        let (x, claimed, e₁) =
          >>=-eq-done (set_sender_local_id (put_mailbox s m.i4 (add_sender b i m.i1)) m.i1) _ e in
        ground arith

do_get_av_mailboxes-quiet :
    (m : Message) (s : Server) (o : Outcome)
    → do_get_av_mailboxes m s ≡ done o
    → wakes_any o.effects ≡ false
unfolding do_get_av_mailboxes
do_get_av_mailboxes-quiet m s o h =
    let (ps, listed, h₁) = >>=-eq-done (av_loop max_mailboxes s.mb_list m.i2 m.i3) _ h in
    elim (Bool-cases (ltb (length ps) max_mailboxes)) [
      | inl room ↦ ground arith
      | inr overflow ↦ absurd (ground arith)
    ]

do_create_mailbox-quiet :
    (m : Message) (s : Server) (o : Outcome)
    → do_create_mailbox true m s ≡ done o
    → wakes_any o.effects ≡ false
unfolding do_create_mailbox
do_create_mailbox-quiet m s o h = ground arith

do_get_senders-quiet :
    (rx_pid : ℤ) (m : Message) (s : Server) (o : Outcome)
    → do_get_senders rx_pid m s ≡ done o
    → wakes_any o.effects ≡ false
unfolding do_get_senders senders_of
do_get_senders-quiet rx_pid m s o h =
    let (slot, there, h₁) = >>=-eq-done (access (at s.mb_list m.i4)) _ h in quiet slot h₁
  where
    quiet :
        (slot : Option MailBox) → senders_of slot rx_pid m s ≡ done o → wakes_any o.effects ≡ false
    quiet none e = ground arith
    quiet (some b) e = elim (Bool-cases (eq_int b.owner_pid rx_pid)) [
      | inl owned ↦
          let (l, read, e₁) = >>=-eq-done (senders_loop max_senders b.senders) _ (rw owned at e) in
          elim (Bool-cases (ltb (length l) max_senders)) [
            | inl room ↦ ground arith
            | inr overflow ↦ absurd (ground arith)
          ]
      | inr other ↦ ground arith
    ]

handle-quiet :
    (c : Call) (s : Server) (o : Outcome)
    → ¬ IsDeposit c
    → handle c s ≡ done o
    → wakes_any o.effects ≡ false
unfolding handle
handle-quiet (deposit dest text m) s o other h = absurd (other tt)
handle-quiet (retrieve m) s o other h = do_retrieve-quiet m s o h
handle-quiet (create_mb m) s o other h = do_create_mailbox-quiet m s o h
handle-quiet (destroy_mb m) s o other h = do_destroy_mailbox-quiet m s o h
handle-quiet (get_av_mb m) s o other h = do_get_av_mailboxes-quiet m s o h
handle-quiet (register m) s o other h = do_register_mb-quiet m s o h
handle-quiet (get_senders rx_pid m) s o other h = do_get_senders-quiet rx_pid m s o h

-- Over any sequence of calls without a deposit, from any server, no process is revived or answered:
-- a sender that was suspended for a full mailbox stays suspended, however many mails are taken out
-- of it.
pub serve_effects-NoDeposit :
    (cs : List Call) (s t : Server) (effects : List Effect)
    → NoDeposit cs
    → serve_effects cs s ≡ done (t, effects)
    → wakes_any effects ≡ false
unfolding serve_effects
serve_effects-NoDeposit [] s t effects quiet h = ground arith
serve_effects-NoDeposit (c ∷ cs) s t effects (other, quiet) h =
    let (o, one, h₁) = >>=-eq-done (handle c s) _ h in
    let (x, more, h₂) = >>=-eq-done (serve_effects cs o.server) _ h₁ in
    let all : o.effects ++ x.1 ≡ effects = ground arith in
    subst (λ es. wakes_any es ≡ false) all
      (wakes_any-append o.effects x.1 (handle-quiet c s o other one)
        (serve_effects-NoDeposit cs o.server x.0 x.1 quiet more))
