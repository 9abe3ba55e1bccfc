-- ===== src/Mailbox/Inv/Lifetime.antt =====
-- Creating and destroying a mailbox keep the invariant.
use cs551os.Prelude.{
  ℕ, zero, suc, ◌≡◌, refl, inl, inr, true, Option, none, some, [], ℤ, pos, negsuc, minus_one,
  get_elem?, get_elem?-replicate, replicate, ◌==◌, ltb, done, access, >>=-eq-done, arith,
  Bool-cases,
}
use cs551os.Prelude.{bit_and}
use cs551os.Prelude.Bits.{bit}
use cs551os.Mailbox.State.{
  Server, MailBox, Message, Outcome, put_mailbox, max_mailboxes, max_senders,
}
use cs551os.Mailbox.Pool.{get_free_id, set_free_id}
use cs551os.Mailbox.Pool.Laws.{IsFreeId, get_free_id_lem}
use cs551os.Mailbox.Lifetime.{
  destroyed, destroy_slot, destroy_id, do_destroy_mailbox, new_mailbox, initialized,
  do_create_mailbox,
}
use cs551os.Mailbox.Inv.{BoxOk, Inv, Packed}
use cs551os.Mailbox.Inv.Calls.{put_mailbox-Inv}

initialized-Inv : (s : Server) → Inv s → Inv (initialized s)
unfolding initialized
initialized-Inv s v = elim (Bool-cases (s.initialize == 50)) [
  | inl before ↦ rw before v
  | inr first ↦ rw first (record {
    boxes = λ i m h.
        let e : some m ≡ none = get_elem?-replicate max_mailboxes i none h in absurd (ground arith);
    db = v.db;
  })
]

-- Only the bit map and the count of ids change.
IsFreeId-Inv : (s : Server) (id : ℤ) (s' : Server) → Inv s → IsFreeId s id s' → Inv s'
IsFreeId-Inv s (pos i) s' v (lt, clear, below, e) = rw e (record { boxes = v.boxes; db = v.db })
IsFreeId-Inv s (negsuc n) s' v (z, e, below) = rw e v

Packed-replicate : (n : ℕ) → Packed (replicate n minus_one) 0
Packed-replicate zero = refl
Packed-replicate (suc n) = (refl, Packed-replicate n)

new_mailbox-BoxOk :
    (m_in : Message) (id : ℤ) → BoxOk (record (new_mailbox true m_in) { mb_id = id })
unfolding new_mailbox
new_mailbox-BoxOk m_in id = record {
  mails = [];
  queue = record { stored = refl; counted = refl; bounded = omega arith; idle = λ _. refl };
  packed = λ alive. Packed-replicate max_senders;
}

-- `do_create_mailbox`, if `malloc` returns zeroed memory.
pub do_create_mailbox-Inv :
    (m_in : Message) (s : Server) (o : Outcome)
    → Inv s
    → do_create_mailbox true m_in s ≡ done o
    → Inv o.server
unfolding do_create_mailbox
do_create_mailbox-Inv m_in s o v h =
    let (id, s') = get_free_id (initialized s) in
    let m = record (new_mailbox true m_in) { mb_id = id } in
    let e : o.server ≡ put_mailbox s' id m = ground arith in
    let v' : Inv s' =
      IsFreeId-Inv (initialized s) id s' (initialized-Inv s v) (get_free_id_lem (initialized s)) in
    rw e (put_mailbox-Inv s' id m v' (new_mailbox-BoxOk m_in id))

destroyed-BoxOk : (m : MailBox) → BoxOk (destroyed m)
unfolding destroyed
destroyed-BoxOk m = record {
  mails = [];
  queue = record { stored = refl; counted = refl; bounded = omega arith; idle = λ _. refl };
  packed = λ alive. absurd (alive refl);
}

set_free_id-Inv : (s : Server) (i : ℕ) → Inv s → Inv (set_free_id s i).1
unfolding set_free_id
set_free_id-Inv s i v = elim (Bool-cases (bit_and s.mb_id_pool (bit i) == 0)) [
  | inl clear ↦ rw clear v
  | inr taken ↦ rw taken (record { boxes = v.boxes; db = v.db })
]

destroy_slot-Inv :
    (slot : Option MailBox) (i : ℕ) (s : Server) (o : Outcome)
    → Inv s
    → destroy_slot slot i s ≡ done o
    → Inv o.server
unfolding destroy_slot
destroy_slot-Inv none i s o v h = let e : o.server ≡ s = ground arith in rw e v
destroy_slot-Inv (some m) i s o v h =
    let s' = put_mailbox s (pos i) (destroyed m) in
    let e : o.server ≡ (set_free_id s' i).1 = ground arith in
    rw e (set_free_id-Inv s' i (put_mailbox-Inv s (pos i) (destroyed m) v (destroyed-BoxOk m)))

destroy_id-Inv :
    (id : ℤ) (s : Server) (o : Outcome) → Inv s → destroy_id id s ≡ done o → Inv o.server
unfolding destroy_id
destroy_id-Inv (negsuc n) s o v h = absurd (ground arith)
destroy_id-Inv (pos i) s o v h = elim (Bool-cases (ltb i max_mailboxes)) [
  | inl inside ↦
      let (slot, there, h₁) = >>=-eq-done (access (get_elem? s.mb_list i)) _ (rw inside at h) in
      destroy_slot-Inv slot i s o v h₁
  | inr outside ↦ let e : o.server ≡ s = ground arith in rw e v
]

pub do_destroy_mailbox-Inv :
    (m_in : Message) (s : Server) (o : Outcome)
    → Inv s
    → do_destroy_mailbox m_in s ≡ done o
    → Inv o.server
unfolding do_destroy_mailbox
do_destroy_mailbox-Inv m_in s o v h = destroy_id-Inv m_in.i4 s o v h
