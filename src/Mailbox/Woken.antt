-- ===== src/Mailbox/Woken.antt =====
-- Whom a deposit wakes: only processes that the server holds for suspended.
pub mod Counts
pub mod Walks
pub mod Loop
pub mod Deposits
use cs551os.Prelude.{
  ℕ, zero, suc, ◌≡◌, refl, sym, ◌∙◌, ap, subst, inl, inr, ◌⊎◌, Bool, true, Option, none, some, List,
  [], ◌∷◌, ◌++◌, ℤ, pos, negsuc, minus_one, eq_int, at, get_elem?, get_elem?-set_cases, set, leb,
  Run, done, access, ◌>>=◌, >>=-eq-done, Bool-cases, Option-cases, arith,
}
use cs551os.Mailbox.State.{
  Server, MailBox, Mail, SuspendContext, Effect, copy_bytes, copy_ints, revive, reply, mailbox,
  put_mailbox, set_at, mb_capacity,
}
use cs551os.Mailbox.Slots.{mailbox-slot}
use cs551os.Mailbox.Deadlock.{first_wait}
use cs551os.Mailbox.Woken.Counts.{replies, revivals}
use cs551os.Mailbox.Queue.{put_msg, unsuspend_rx}

-- The server holds the process in slot `k` for suspended: as the receiver of a mailbox, or as a
-- sender that waits for one.
pub data Waits (s : Server) (k : ℕ) : Type 0 where
  as_receiver :
      (i : ℕ) (m : MailBox)
      → get_elem? s.mb_list i ≡ some (some m)
      → m.rx_suspended ≡ true
      → m.sus_end_p ≡ k
      → Waits s k
  as_sender :
      (i : ℕ) (c : SuspendContext) (n : ℕ)
      → get_elem? s.sus_context i ≡ some (some c)
      → first_wait c ≡ done (pos n)
      → c.sus_end_p ≡ k
      → Waits s k

-- Every process that the effects revive or answer has the property.
abbrev pub AllWoken : (ℕ → Type 0) → List Effect → Type 0
AllWoken P [] = Unit {0}
AllWoken P (copy_bytes to address bytes ∷ es) = AllWoken P es
AllWoken P (copy_ints to address ints ∷ es) = AllWoken P es
AllWoken P (revive k ∷ es) = P k × AllWoken P es
AllWoken P (reply k ∷ es) = P k × AllWoken P es

pub AllWoken-append :
    (P : ℕ → Type 0) (es fs : List Effect) → AllWoken P es → AllWoken P fs → AllWoken P (es ++ fs)
AllWoken-append P [] fs h k = k
AllWoken-append P (copy_bytes to address bytes ∷ es) fs h k = AllWoken-append P es fs h k
AllWoken-append P (copy_ints to address ints ∷ es) fs h k = AllWoken-append P es fs h k
AllWoken-append P (revive slot ∷ es) fs (p, h) k = (p, AllWoken-append P es fs h k)
AllWoken-append P (reply slot ∷ es) fs (p, h) k = (p, AllWoken-append P es fs h k)

pub AllWoken-map :
    (P Q : ℕ → Type 0) (es : List Effect) → ((k : ℕ) → P k → Q k) → AllWoken P es → AllWoken Q es
AllWoken-map P Q [] f h = tt
AllWoken-map P Q (copy_bytes to address bytes ∷ es) f h = AllWoken-map P Q es f h
AllWoken-map P Q (copy_ints to address ints ∷ es) f h = AllWoken-map P Q es f h
AllWoken-map P Q (revive slot ∷ es) f (p, h) = (f slot p, AllWoken-map P Q es f h)
AllWoken-map P Q (reply slot ∷ es) f (p, h) = (f slot p, AllWoken-map P Q es f h)

-- Whoever waits in `s'` waits in `s`.
abbrev pub Fewer : Server → Server → Type 0
Fewer s s' = (k : ℕ) → Waits s' k → Waits s k

-- The waiting receiver of `m` is the one of `m'`.
pub record SameReceiver (m m' : MailBox) : Type 0 where
  pub flag : m'.rx_suspended ≡ m.rx_suspended
  pub slot : m'.sus_end_p ≡ m.sus_end_p

pub put_mailbox-Fewer :
    (s : Server) (id : ℤ) (m m' : MailBox)
    → mailbox s id ≡ done m
    → SameReceiver m m'
    → Fewer s (put_mailbox s id m')
put_mailbox-Fewer s id m m' at_id same k (as_sender i c n here waits is_k) =
    as_sender i c n here waits is_k
put_mailbox-Fewer s id m m' at_id same k (as_receiver i b here flag is_k) =
    let (j, is_j, there) = mailbox-slot s id at_id in
    let here' : get_elem? (set s.mb_list j (some m')) i ≡ some (some b) =
      subst (λ n. get_elem? (put_mailbox s n m').mb_list i ≡ some (some b)) is_j here in
    elim (get_elem?-set_cases s.mb_list j i (some m') here') [
      | inl new ↦
          let is_m : b ≡ m' = ground arith in
          as_receiver j m there (sym same.flag ∙ (sym (ap (λ n. n.rx_suspended) is_m) ∙ flag))
            (sym same.slot ∙ (sym (ap (λ n. n.sus_end_p) is_m) ∙ is_k))
      | inr old ↦ as_receiver i b old flag is_k
    ]

-- What `putMsg` does with a receiver that waits.
pub put_msg-SameReceiver :
    (m m' : MailBox) (mail : Mail) (r : ℤ) (effects : List Effect)
    → put_msg m mail ≡ done (r, m', effects)
    → SameReceiver m m'
      × AllWoken (λ k. (m.rx_suspended ≡ true) × (m.sus_end_p ≡ k)) effects
      × (replies effects ≡ revivals effects)
unfolding put_msg unsuspend_rx replies revivals
put_msg-SameReceiver m m' mail r effects e = elim (Bool-cases (leb mb_capacity m.num_messages)) [
  | inl full ↦
      let is_m : m' ≡ m = ground arith in
      let nothing : effects ≡ [] = ground arith in
      (rw is_m (record { flag = refl; slot = refl }), rw nothing tt, rw nothing refl)
  | inr room ↦ elim (Bool-cases m.rx_suspended) [
    | inl asleep ↦
        let is_m : m' ≡ m = ground arith in
        let woken : effects ≡ unsuspend_rx m mail = ground arith in
        (
          rw is_m (record { flag = refl; slot = refl }),
          rw woken ((asleep, refl), ((asleep, refl), tt)),
          rw woken refl,
        )
    | inr awake ↦
        let (q, there, e') = >>=-eq-done (access m.queue) _ (rw awake at (rw room at e)) in
        let nothing : effects ≡ [] = ground arith in
        (record { flag = ground arith; slot = ground arith }, rw nothing tt, rw nothing refl)
  ]
]
