-- ===== src/Mailbox/Inv/Register.antt =====
-- Registering keeps the invariant, and makes the caller a valid sender.
use cs551os.Prelude.{
  ℕ, zero, suc, ◌+◌, ◌-◌, ◌*◌, ◌≡◌, refl, sym, ◌∙◌, ap, subst, ◌≢◌, inl, inr, List, [], ◌∷◌, ℤ, pos,
  minus_one, eq_int, set, some, get_elem?, get_elem?-set, replicate, drop, done, ◌>>=◌, >>=-eq-done,
  arith, Bool-cases,
}
use cs551os.Mailbox.State.{
  Server, MailBox, Message, Outcome, ret, mailbox, put_mailbox, max_mailboxes, max_senders,
}
use cs551os.Mailbox.Slots.{mailbox-slot, slot-mailbox}
use mathlib.Core.Path.{fun_ext}
use cs551os.Mailbox.Lookup.Laws.{Listed, IsRegistered}
use cs551os.Mailbox.Lookup.{get_mb_id, entry_loop, claim_for, set_sender_local_id}
use cs551os.Mailbox.Register.{
  Place, present, free, full, place_loop, add_sender, register_at, do_register_mb, may_use,
}
use cs551os.Mailbox.Inv.{BoxOk, Inv, Packed}
use cs551os.Mailbox.Inv.Calls.{put_mailbox-Inv}

-- `set_sender_local_id` finds no entry that holds -1 among the zeros, and writes nothing.
entry_loop-zeros : entry_loop 90 10 (replicate 90 (pos 0)) minus_one ≡ done minus_one
unfolding entry_loop
entry_loop-zeros = refl

claim-stuck :
    (s : Server) (pid : ℤ)
    → Inv s
    → (entry_loop
        (max_senders * max_mailboxes - max_mailboxes)
        max_mailboxes
        (drop max_mailboxes s.sender_db)
        minus_one)
      ≡ done minus_one
claim-stuck s pid v = rw v.db entry_loop-zeros

claim_for-stuck : (s : Server) (pid : ℤ) → Inv s → (id : ℤ) → claim_for s pid id ≡ done (id, s)
unfolding claim_for
claim_for-stuck s pid v id = elim (Bool-cases (eq_int id minus_one)) [
  | inl none_ ↦
      let e : minus_one ≡ id = ground arith in
      rw (none_, claim-stuck s pid v) (ap (λ k. done (k, s)) e)
  | inr own ↦ rw own
]

-- In a server that keeps the invariant `set_sender_local_id` never gives out a local id: it answers
-- the mailbox id of a process that owns one, and -1 for any other, and changes nothing.
pub set_sender_local_id-stuck :
    (s : Server) (pid : ℤ)
    → Inv s
    → set_sender_local_id s pid ≡ (do id ← get_mb_id s pid; done (id, s))
unfolding set_sender_local_id
set_sender_local_id-stuck s pid v =
    ap (λ k. get_mb_id s pid >>= k) (fun_ext (claim_for-stuck s pid v))

-- A sender takes the first free place, which packed senders have just behind the last one.
record Placed (i k : ℕ) (senders : List ℤ) (used : ℕ) (pid : ℤ) : Type 0 where
  place : k ≡ i + used
  packed : Packed (set senders used pid) (suc used)
  listed : Listed (suc used) (set senders used pid) pid

place_loop-Placed :
    (n i k : ℕ) (senders : List ℤ) (used : ℕ) (pid : ℤ)
    → Packed senders used
    → place_loop n i senders pid ≡ done (free k)
    → Placed i k senders used pid
unfolding place_loop
place_loop-Placed zero i k senders used pid p h = absurd (ground arith)
place_loop-Placed (suc n) i k [] used pid p h = absurd (ground arith)
place_loop-Placed (suc n) i k (x ∷ senders) zero pid (e, p) h = record {
  place = ground arith;
  packed = (λ same. ground arith, p);
  listed = inl refl;
}
place_loop-Placed (suc n) i k (x ∷ senders) (suc used) pid (ne, p) h =
    elim (Bool-cases (eq_int x pid)) [
      | inl here ↦ absurd (ground arith)
      | inr other ↦
          let r = place_loop-Placed n (i + 1) k senders used pid p (ground arith) in
          record { place = omega (arith, r.place); packed = (ne, r.packed); listed = inr r.listed }
    ]

-- The mailbox after a registration: in order, and with the sender among the registered.
pub add_sender_lem :
    (m : MailBox) (k : ℕ) (pid : ℤ)
    → BoxOk m
    → place_loop max_senders 0 m.senders pid ≡ done (free k)
    → BoxOk (add_sender m k pid) × (m.owner_pid ≢ minus_one → IsRegistered (add_sender m k pid) pid)
unfolding add_sender
add_sender_lem m k pid b h = (
  record {
    mails = b.mails;
    queue = record {
      stored = b.queue.stored;
      counted = b.queue.counted;
      bounded = b.queue.bounded;
      idle = b.queue.idle;
    };
    packed = λ alive. subst (Packed (set m.senders k pid)) up (rw (is_k alive) (r alive).packed);
  },
  λ alive. subst (λ n. Listed n (set m.senders k pid) pid) up (rw (is_k alive) (r alive).listed),
)
  where
    up : suc m.num_senders ≡ m.num_senders + 1
    up = omega arith

    r : m.owner_pid ≢ minus_one → Placed 0 k m.senders m.num_senders pid
    r alive = place_loop-Placed max_senders 0 k m.senders m.num_senders pid (b.packed alive) h

    is_k : m.owner_pid ≢ minus_one → k ≡ m.num_senders
    is_k alive = omega (arith, (r alive).place)

owner-add_sender : (m : MailBox) (k : ℕ) (pid : ℤ) → (add_sender m k pid).owner_pid ≡ m.owner_pid
unfolding add_sender
owner-add_sender m k pid = refl

register_at-Inv :
    (p : Place) (m : MailBox) (m_in : Message) (s : Server) (o : Outcome)
    → Inv s
    → BoxOk m
    → place_loop max_senders 0 m.senders m_in.i1 ≡ done p
    → register_at p m m_in s ≡ done o
    → Inv o.server
unfolding register_at
register_at-Inv present m m_in s o v b at_p h = let e : o.server ≡ s = ground arith in rw e v
register_at-Inv full m m_in s o v b at_p h = let e : o.server ≡ s = ground arith in rw e v
register_at-Inv (free k) m m_in s o v b at_p h =
    let m' = add_sender m k m_in.i1 in
    let s' = put_mailbox s m_in.i4 m' in
    let v' : Inv s' = put_mailbox-Inv s m_in.i4 m' v (add_sender_lem m k m_in.i1 b at_p).0 in
    let (x, set_id, h₁) = >>=-eq-done (set_sender_local_id s' m_in.i1) _ h in
    let (id, found, h₂) =
      >>=-eq-done (get_mb_id s' m_in.i1) _
        (sym (set_sender_local_id-stuck s' m_in.i1 v') ∙ set_id) in
    let e : o.server ≡ s' = ground arith in rw e v'

-- Where a registration succeeds, it has written the mailbox back.
register_at-server :
    (k : ℕ) (m : MailBox) (m_in : Message) (s : Server) (o : Outcome)
    → Inv s
    → BoxOk (add_sender m k m_in.i1)
    → register_at (free k) m m_in s ≡ done o
    → o.server ≡ put_mailbox s m_in.i4 (add_sender m k m_in.i1)
unfolding register_at
register_at-server k m m_in s o v ok h =
    let m' = add_sender m k m_in.i1 in
    let s' = put_mailbox s m_in.i4 m' in
    let v' : Inv s' = put_mailbox-Inv s m_in.i4 m' v ok in
    let (x, set_id, h₁) = >>=-eq-done (set_sender_local_id s' m_in.i1) _ h in
    let (id, found, h₂) =
      >>=-eq-done (get_mb_id s' m_in.i1) _
        (sym (set_sender_local_id-stuck s' m_in.i1 v') ∙ set_id) in
    ground arith

register_at-IsRegistered :
    (p : Place) (m : MailBox) (m_in : Message) (s : Server) (o : Outcome) (i : ℕ)
    → Inv s
    → BoxOk m
    → m_in.i4 ≡ pos i
    → get_elem? s.mb_list i ≡ some (some m)
    → place_loop max_senders 0 m.senders m_in.i1 ≡ done p
    → register_at p m m_in s ≡ done o
    → o.answer ≡ ret (pos 0)
    → (m' : MailBox) × (mailbox o.server m_in.i4 ≡ done m')
      × (m'.owner_pid ≢ minus_one → IsRegistered m' m_in.i1)
unfolding register_at
register_at-IsRegistered present m m_in s o i v b is_i there at_p h zero_ = absurd (ground arith)
register_at-IsRegistered full m m_in s o i v b is_i there at_p h zero_ = absurd (ground arith)
register_at-IsRegistered (free k) m m_in s o i v b is_i there at_p h zero_ =
    let (ok, listed) = add_sender_lem m k m_in.i1 b at_p in
    let m' = add_sender m k m_in.i1 in
    let e : o.server ≡ put_mailbox s m_in.i4 m' = register_at-server k m m_in s o v ok h in
    let read : get_elem? (set s.mb_list i (some m')) i ≡ some (some m') =
      ground (arith, get_elem?-set s.mb_list i i (some m') there) in
    (
      m',
      rw (e, is_i) (slot-mailbox (put_mailbox s (pos i) m') i read),
      λ alive. listed (subst (λ pid. pid ≢ minus_one) (owner-add_sender m k m_in.i1) alive),
    )

pub do_register_mb-Inv :
    (m_in : Message) (s : Server) (o : Outcome)
    → Inv s
    → do_register_mb m_in s ≡ done o
    → Inv o.server
unfolding do_register_mb
do_register_mb-Inv m_in s o v h =
    let (m, at_id, h₁) = >>=-eq-done (mailbox s m_in.i4) _ h in
    let (i, is_i, there) = mailbox-slot s m_in.i4 at_id in
    elim (Bool-cases (may_use m m_in.i2 m_in.i3)) [
      | inl allowed ↦
          let (p, found, h₂) =
            >>=-eq-done (place_loop max_senders 0 m.senders m_in.i1) _ (rw allowed at h₁) in
          register_at-Inv p m m_in s o v (v.boxes i m there) found h₂
      | inr denied ↦ let e : o.server ≡ s = ground arith in rw e v
    ]

-- In a server with the invariant, a registration with the answer 0 makes the caller a registered
-- sender of that mailbox, unless it is a destroyed one.
pub do_register_mb-IsRegistered :
    (m_in : Message) (s : Server) (o : Outcome)
    → Inv s
    → do_register_mb m_in s ≡ done o
    → o.answer ≡ ret (pos 0)
    → (m : MailBox) × (mailbox o.server m_in.i4 ≡ done m)
      × (m.owner_pid ≢ minus_one → IsRegistered m m_in.i1)
unfolding do_register_mb
do_register_mb-IsRegistered m_in s o v h zero_ =
    let (m, at_id, h₁) = >>=-eq-done (mailbox s m_in.i4) _ h in
    let (i, is_i, there) = mailbox-slot s m_in.i4 at_id in
    elim (Bool-cases (may_use m m_in.i2 m_in.i3)) [
      | inl allowed ↦
          let (p, found, h₂) =
            >>=-eq-done (place_loop max_senders 0 m.senders m_in.i1) _ (rw allowed at h₁) in
          register_at-IsRegistered p m m_in s o i v (v.boxes i m there) is_i there found h₂ zero_
      | inr denied ↦ absurd (ground arith)
    ]
