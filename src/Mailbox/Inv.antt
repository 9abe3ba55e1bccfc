-- ===== src/Mailbox/Inv.antt =====
-- The invariant of the mailbox server between two calls.
pub mod Lifetime
pub mod Register
pub mod Calls
pub mod Reach
use cs551os.Prelude.{
  ℕ, zero, suc, ◌*◌, ◌≡◌, ◌≢◌, refl, Option, some, List, [], ◌∷◌, ℤ, pos, minus_one, get_elem?,
  replicate, arith,
}
use cs551os.Mailbox.State.{Server, MailBox, Mail, max_senders, max_mailboxes, boot}
use cs551os.Mailbox.Queue.Laws.{IsQueue}

-- Exactly the first `n` entries of `senders` are in use.
abbrev pub Packed : List ℤ → ℕ → Type 0
Packed [] n = n ≡ 0
Packed (x ∷ xs) zero = (x ≡ minus_one) × Packed xs zero
Packed (x ∷ xs) (suc n) = (x ≢ minus_one) × Packed xs n

-- The senders of a destroyed mailbox, whose owner is -1, need not be packed.
pub record BoxOk (m : MailBox) : Type 0 where
  pub mails : List Mail
  pub queue : IsQueue m mails
  pub packed : m.owner_pid ≢ minus_one → Packed m.senders m.num_senders

-- `senderDB` is never written: it keeps the zeros it was loaded with.
pub record Inv (s : Server) : Type 0 where
  pub boxes : (i : ℕ) (m : MailBox) → get_elem? s.mb_list i ≡ some (some m) → BoxOk m
  pub db : s.sender_db ≡ replicate (max_senders * max_mailboxes) (pos 0)

pub boot-Inv : Inv boot
unfolding boot
boot-Inv = record { boxes = λ i m e. absurd (ground arith); db = refl }
