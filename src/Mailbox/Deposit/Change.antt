-- ===== src/Mailbox/Deposit/Change.antt =====
-- How `do_deposit` may change the mailboxes: only where the caller is registered, and only
-- contents.
use cs551os.Prelude.{
  ℕ, ◌≡◌, refl, ◌∙◌, subst, ◌≢◌, inl, inr, Option, some, List, ℤ, minus_one, get_elem?,
  get_elem?-set, ◌==◌, done, arith, Bool-cases, Option-cases, if◌then◌else◌,
}
use cs551os.Mailbox.State.{Server, MailBox, Mail, Effect, mailbox, put_mailbox}
use cs551os.Mailbox.Slots.{mailbox-slot}
use cs551os.Mailbox.Queue.{put_msg}
use cs551os.Mailbox.Queue.Laws.{IsQueue, after_put, put_msg-IsQueue}
use cs551os.Mailbox.Lookup.Laws.{IsRegistered}
use cs551os.Mailbox.Inv.{BoxOk, Packed}
use cs551os.Mailbox.Deposit.{note_suspended}

-- `m'` has the owner and the senders of `m`.
pub record SameSenders (m m' : MailBox) : Type 0 where
  pub owner : m'.owner_pid ≡ m.owner_pid
  pub num : m'.num_senders ≡ m.num_senders
  pub senders : m'.senders ≡ m.senders

-- Only the contents have changed, and they are still in order.
abbrev pub Change : MailBox → MailBox → Type 0
Change m m' = SameSenders m m' × (BoxOk m → BoxOk m')

-- A slot is as it was, or holds the same mailbox with new contents, and `pid` is registered there.
pub data SafeSlot (pid : ℤ) (old new : Option (Option MailBox)) : Type 0 where
  same : new ≡ old → SafeSlot pid old new
  changed :
      (m m' : MailBox)
      → old ≡ some (some m)
      → new ≡ some (some m')
      → IsRegistered m pid
      → Change m m'
      → SafeSlot pid old new

abbrev pub Safe : ℤ → Server → Server → Type 0
Safe pid s s' =
    ((i : ℕ) → SafeSlot pid (get_elem? s.mb_list i) (get_elem? s'.mb_list i))
    × (s'.sender_db ≡ s.sender_db)

pub Change-trans : {a b c : MailBox} → Change a b → Change b c → Change a c
Change-trans (k, ok) (k', ok') = (
  record { owner = k'.owner ∙ k.owner; num = k'.num ∙ k.num; senders = k'.senders ∙ k.senders },
  λ b. ok' (ok b),
)

SafeSlot-trans :
    {pid : ℤ} {a b c : Option (Option MailBox)}
    → SafeSlot pid a b
    → SafeSlot pid b c
    → SafeSlot pid a c
SafeSlot-trans (same e) (same e') = same (e' ∙ e)
SafeSlot-trans (same e) (changed m m' o n r k) = changed m m' (ground arith) n r k
SafeSlot-trans (changed m m' o n r k) (same e) = changed m m' o (e ∙ n) r k
SafeSlot-trans (changed m m' o n r k) (changed p p' o' n' r' k') =
    let e : m' ≡ p = ground arith in changed m p' o n' r (Change-trans (subst (Change m) e k) k')

pub Safe-refl : (pid : ℤ) (s : Server) → Safe pid s s
Safe-refl pid s = (λ i. same refl, refl)

pub Safe-trans : (pid : ℤ) (a b c : Server) → Safe pid a b → Safe pid b c → Safe pid a c
Safe-trans pid a b c h k = (λ i. SafeSlot-trans (h.0 i) (k.0 i), k.1 ∙ h.1)

-- What a safe change leaves in a slot was in order if the old contents were.
pub SafeSlot-BoxOk :
    {pid : ℤ} {a b : Option (Option MailBox)}
    → SafeSlot pid a b
    → ((m : MailBox) → a ≡ some (some m) → BoxOk m)
    → (m : MailBox) → b ≡ some (some m)
    → BoxOk m
SafeSlot-BoxOk (same e) ok m here = ok m (ground arith)
SafeSlot-BoxOk (changed p p' o n r k) ok m here =
    let e : p' ≡ m = ground arith in subst BoxOk e (k.1 (ok p o))

SameSenders-Packed :
    {m m' : MailBox}
    → SameSenders m m'
    → BoxOk m
    → m'.owner_pid ≢ minus_one
    → Packed m'.senders m'.num_senders
SameSenders-Packed k b alive = rw (k.senders, k.num) (b.packed (λ e. alive (k.owner ∙ e)))

put_msg-SameSenders :
    {m m' : MailBox} (mail : Mail) {r : ℤ} {effects : List Effect}
    → put_msg m mail ≡ done (r, m', effects)
    → SameSenders m m'
unfolding put_msg
put_msg-SameSenders {m} mail e = elim (Option-cases m.queue) [
  | inl empty ↦ ground arith
  | inr (q, there) ↦ ground arith
]

pub put_msg-Change :
    {m m' : MailBox} (mail : Mail) {r : ℤ} {effects : List Effect}
    → put_msg m mail ≡ done (r, m', effects)
    → Change m m'
put_msg-Change {m} {m'} mail e =
    let k = put_msg-SameSenders mail e in
    (
      k,
      λ b. record {
        mails = after_put m b.mails mail;
        queue = put_msg-IsQueue mail b.queue e;
        packed = SameSenders-Packed k b;
      },
    )

note_suspended-same :
    {m m' : MailBox} (pid : ℤ)
    → note_suspended m pid ≡ done m'
    → SameSenders m m' × ((q : List Mail) → IsQueue m q → IsQueue m' q)
unfolding note_suspended
note_suspended-same pid e = (ground arith, λ q h. ground arith)

pub note_suspended-Change :
    {m m' : MailBox} (pid : ℤ) → note_suspended m pid ≡ done m' → Change m m'
note_suspended-Change {m} {m'} pid e =
    let (k, keep) = note_suspended-same pid e in
    (
      k,
      λ b. record {
        mails = b.mails;
        queue = keep b.mails b.queue;
        packed = SameSenders-Packed k b;
      },
    )

pub put_mailbox-Safe :
    (s : Server) (id pid : ℤ) {m m' : MailBox}
    → mailbox s id ≡ done m
    → IsRegistered m pid
    → Change m m'
    → Safe pid s (put_mailbox s id m')
put_mailbox-Safe s id pid {m} {m'} e r k = (slots, refl)
  where
    slots :
        (j : ℕ) → SafeSlot pid (get_elem? s.mb_list j) (get_elem? (put_mailbox s id m').mb_list j)
    slots j =
        let (i, is_i, old) = mailbox-slot s id e in
        let new : get_elem? (put_mailbox s id m').mb_list j
            ≡ (if i == j then some (some m') else get_elem? s.mb_list j) =
          rw is_i (get_elem?-set s.mb_list i j (some m') old) in
        elim (Bool-cases (i == j)) [
          | inl here ↦ changed m m' (ground arith) (ground arith) r k
          | inr other ↦ same (ground arith)
        ]
