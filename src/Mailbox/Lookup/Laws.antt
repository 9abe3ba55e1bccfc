-- ===== src/Mailbox/Lookup/Laws.antt =====
-- What the searches over `mbList` and `senders` find, the reads through NULL included.
use cs551os.Prelude.{
  ℕ, zero, suc, ◌+◌, ◌<◌, ◌≡◌, refl, subst, ◌≢◌, ◌⊎◌, inl, inr, Option, none, some, List, [], ◌∷◌,
  ℤ, pos, negsuc, minus_one, eq_int, get_elem?, Run, ◌>>=◌, done, fault, out_of_fuel, arith,
  Bool-cases,
}
use cs551os.Mailbox.State.{Server, MailBox, mailbox, max_mailboxes}
use cs551os.Mailbox.Lookup.{owner_loop, get_mb_id, sender_loop, valid_in, is_valid_sender}

-- The first `n` slots hold mailboxes, none of which is owned by `pid`.
abbrev pub Others : List (Option MailBox) → ℤ → ℕ → Type 0
Others slots pid zero = Unit {0}
Others [] pid (suc n) = ⊥
Others (none ∷ slots) pid (suc n) = ⊥
Others (some m ∷ slots) pid (suc n) = (m.owner_pid ≢ pid) × Others slots pid n

-- Slot `i` is NULL, or there is no such slot.
abbrev pub IsNull : List (Option MailBox) → ℕ → Type 0
IsNull slots i = (get_elem? slots i ≡ none) ⊎ (get_elem? slots i ≡ some none)

-- What a search for the mailbox of `pid` among the first `n` slots comes to; ids count from `i`.
abbrev pub Search : (n i : ℕ) → List (Option MailBox) → ℤ → Run ℤ → Type 0
Search n i slots pid (done (pos k)) =
    (j : ℕ) × (k ≡ i + j)
    × (j < n)
    × Others slots pid j
    × ((m : MailBox) × (get_elem? slots j ≡ some (some m)) × (m.owner_pid ≡ pid))
Search n i slots pid (done (negsuc k)) = (k ≡ 0) × Others slots pid n
Search n i slots pid fault = (j : ℕ) × (j < n) × Others slots pid j × IsNull slots j
Search n i slots pid out_of_fuel = ⊥

Search-suc :
    (n i : ℕ) (m : MailBox) (slots : List (Option MailBox)) (pid : ℤ) (r : Run ℤ)
    → m.owner_pid ≢ pid
    → Search n (i + 1) slots pid r
    → Search (suc n) i (some m ∷ slots) pid r
Search-suc n i m slots pid (done (pos k)) ne (j, e, lt, others, found) =
    (suc j, omega arith, omega arith, (ne, others), found)
Search-suc n i m slots pid (done (negsuc k)) ne (e, others) = (e, (ne, others))
Search-suc n i m slots pid fault ne (j, lt, others, null) = (suc j, omega arith, (ne, others), null)
Search-suc n i m slots pid out_of_fuel ne h = absurd h

owner_loop-Search :
    (n i : ℕ) (slots : List (Option MailBox)) (pid : ℤ)
    → Search n i slots pid (owner_loop n i slots pid)
unfolding owner_loop
owner_loop-Search zero i slots pid = (refl, tt)
owner_loop-Search (suc n) i [] pid = (0, omega arith, tt, inl refl)
owner_loop-Search (suc n) i (none ∷ slots) pid = (0, omega arith, tt, inr refl)
owner_loop-Search (suc n) i (some m ∷ slots) pid = elim (Bool-cases (eq_int m.owner_pid pid)) [
  | inl e ↦ rw e (0, omega arith, omega arith, tt, (m, refl, ground arith))
  | inr e ↦
      rw e (Search-suc n i m slots pid _ (ground arith) (owner_loop-Search n (i + 1) slots pid))
]

-- `get_mb_id` finds the first mailbox that the process owns; it answers -1 exactly when all ten
-- slots hold mailboxes of others, and reads through NULL exactly when it meets an empty slot
-- before a mailbox of the process.
pub get_mb_id_lem : (s : Server) (pid : ℤ) → Search max_mailboxes 0 s.mb_list pid (get_mb_id s pid)
unfolding get_mb_id
get_mb_id_lem s pid = owner_loop-Search max_mailboxes 0 s.mb_list pid

-- `pid` is among the first `n` senders.
abbrev pub Listed : ℕ → List ℤ → ℤ → Type 0
Listed zero senders pid = ⊥
Listed (suc n) [] pid = ⊥
Listed (suc n) (x ∷ senders) pid = (x ≡ pid) ⊎ Listed n senders pid

abbrev pub IsRegistered : MailBox → ℤ → Type 0
IsRegistered m pid = Listed m.num_senders m.senders pid

sender_loop-Listed :
    (n : ℕ) (senders : List ℤ) (pid r : ℤ)
    → sender_loop n senders pid ≡ done r
    → ((r ≡ pos 1) × Listed n senders pid) ⊎ ((r ≡ pos 0) × ¬ Listed n senders pid)
unfolding sender_loop
sender_loop-Listed zero senders pid r e = inr (ground arith, λ h. h)
sender_loop-Listed (suc n) [] pid r e = absurd (ground arith)
sender_loop-Listed (suc n) (x ∷ senders) pid r e = elim (Bool-cases (eq_int x pid)) [
  | inl h ↦ inl (ground arith, inl (ground arith))
  | inr h ↦ elim (sender_loop-Listed n senders pid r (ground arith)) [
    | inl (one, l) ↦ inl (one, inr l)
    | inr (nil, l) ↦ inr (nil, elim [ inl here ↦ ground arith | inr there ↦ l there ])
  ]
]

valid_in_lem :
    (m : MailBox) (pid r : ℤ)
    → valid_in m pid ≡ done r
    → ((r ≡ minus_one) × (m.owner_pid ≡ minus_one))
      ⊎ (((r ≡ pos 1) × IsRegistered m pid) ⊎ ((r ≡ pos 0) × ¬ IsRegistered m pid))
unfolding valid_in
valid_in_lem m pid r e = elim (Bool-cases (eq_int m.owner_pid minus_one)) [
  | inl h ↦ inl (ground arith, ground arith)
  | inr h ↦ inr (sender_loop-Listed m.num_senders m.senders pid r (rw h at e))
]

-- `isValidSender` answers -1 for a mailbox whose owner is -1, and for any other 1 if the sender is
-- registered and 0 if not.
pub is_valid_sender_lem :
    (s : Server) (id pid r : ℤ) (m : MailBox)
    → mailbox s id ≡ done m
    → is_valid_sender s id pid ≡ done r
    → ((r ≡ minus_one) × (m.owner_pid ≡ minus_one))
      ⊎ (((r ≡ pos 1) × IsRegistered m pid) ⊎ ((r ≡ pos 0) × ¬ IsRegistered m pid))
unfolding is_valid_sender
is_valid_sender_lem s id pid r m at_id e =
    valid_in_lem m pid r (subst (λ run. (run >>= λ m'. valid_in m' pid) ≡ done r) at_id e)
