-- ===== src/Mailbox/Slots.antt =====
-- Reads and writes of `mbList[id]`.
use cs551os.Prelude.{
  ℕ, ◌≡◌, refl, Option, none, some, ℤ, pos, negsuc, get_elem?, done, access, ◌>>=◌, arith,
}
use cs551os.Mailbox.State.{Server, MailBox, mailbox}

slot_of :
    (o : Option (Option MailBox)) {m : MailBox} → (access o >>= access) ≡ done m → o ≡ some (some m)
slot_of none e = absurd (ground arith)
slot_of (some none) e = absurd (ground arith)
slot_of (some (some m)) e = ground arith

-- A mailbox that is reached stands in the table.
pub mailbox-slot :
    (s : Server) (id : ℤ) {m : MailBox}
    → mailbox s id ≡ done m
    → (i : ℕ) × (id ≡ pos i) × (get_elem? s.mb_list i ≡ some (some m))
unfolding mailbox
mailbox-slot s (pos i) e = (i, refl, slot_of (get_elem? s.mb_list i) e)
mailbox-slot s (negsuc i) e = absurd (ground arith)

pub slot-mailbox :
    (s : Server) (i : ℕ) {m : MailBox}
    → get_elem? s.mb_list i ≡ some (some m)
    → mailbox s (pos i) ≡ done m
unfolding mailbox
slot-mailbox s i e = rw e
