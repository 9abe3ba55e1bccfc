-- ===== src/Mailbox/Deposit/Auth.antt =====
-- Who can change which mailbox by `do_deposit`.
use cs551os.Prelude.{
  ℕ, zero, suc, ◌≡◌, ap, inl, inr, Option, none, some, List, [], ◌∷◌, ◌++◌, ℤ, pos, negsuc,
  minus_one, eq_int, at, get_elem?, take, done, access, >>=-eq-done, arith, Bool-cases,
  if◌then◌else◌,
}
use cs551os.Mailbox.State.{Server, MailBox, Mail, Message, Effect, Outcome, mailbox, put_mailbox}
use cs551os.Mailbox.Queue.{put_msg}
use cs551os.Mailbox.Deposit.Change.{
  same, Change, Safe, Safe-refl, Safe-trans, Change-trans, put_msg-Change, note_suspended-Change,
  put_mailbox-Safe,
}
use cs551os.Mailbox.Lookup.{get_mb_id, is_valid_sender}
use cs551os.Mailbox.Lookup.Laws.{IsRegistered, is_valid_sender_lem}
use cs551os.Mailbox.Lookup.{get_sender_local_id}
use cs551os.Mailbox.Deadlock.{check_dead_lock, indicate_deadlock}
use cs551os.Mailbox.Deadlock.Frame.{SameTables, indicate_deadlock-SameTables}
use cs551os.Mailbox.Deposit.{
  Step, rejected, delivered, blocked, note_suspended, settle, deliver, judge, route, deposit_one,
  LoopEnd, deposit_next, deposit_loop, with_context, walk_fuel, suspend_sender, finish_deposit,
  do_deposit, max_dest,
}

abbrev server_of : Step → Server → Server
server_of (rejected code) s = s
server_of (delivered s' effects) s = s'
server_of (blocked s' id) s = s'

settle-Safe :
    (s : Server) (id pid r : ℤ) (m m' : MailBox) (effects : List Effect) (step : Step)
    → mailbox s id ≡ done m
    → IsRegistered m pid
    → Change m m'
    → settle s id pid (r, m', effects) ≡ done step
    → Safe pid s (server_of step s)
unfolding settle
settle-Safe s id pid r m m' effects step at_id reg k e = elim (Bool-cases (eq_int r minus_one)) [
  | inl full ↦
      let (m'', noted, e') = >>=-eq-done (note_suspended m' pid) _ (rw full at e) in
      let is_step : step ≡ blocked (put_mailbox s id m'') id = ground arith in
      let k' : Change m' m'' = note_suspended-Change pid noted in
      rw is_step (put_mailbox-Safe s id pid at_id reg (Change-trans k k'))
  | inr stored ↦
      let is_step : step ≡ delivered (put_mailbox s id m') effects = ground arith in
      rw is_step (put_mailbox-Safe s id pid at_id reg k)
]

deliver-Safe :
    (s : Server) (id pid : ℤ) (mail : Mail) (step : Step)
    → ((m : MailBox) → mailbox s id ≡ done m → IsRegistered m pid)
    → deliver s id pid mail ≡ done step
    → Safe pid s (server_of step s)
unfolding deliver
deliver-Safe s id pid mail step reg e =
    let (m, at_id, e₁) = >>=-eq-done (mailbox s id) _ e in
    let (x, put, e₂) = >>=-eq-done (put_msg m mail) _ e₁ in
    settle-Safe s id pid x.0 m x.1 x.2 step at_id (reg m at_id) (put_msg-Change mail put) e₂

is_valid_sender-IsRegistered :
    (s : Server) (id pid : ℤ) (m : MailBox)
    → is_valid_sender s id pid ≡ done (pos 1)
    → mailbox s id ≡ done m
    → IsRegistered m pid
is_valid_sender-IsRegistered s id pid m v at_id =
    elim (is_valid_sender_lem s id pid (pos 1) m at_id v) [
      | inl (e, no_owner) ↦ absurd (ground arith)
      | inr (inl (e, listed)) ↦ listed
      | inr (inr (e, unlisted)) ↦ absurd (ground arith)
    ]

judge-Safe :
    (s : Server) (id pid valid : ℤ) (mail : Mail) (step : Step)
    → is_valid_sender s id pid ≡ done valid
    → judge s id pid mail valid ≡ done step
    → Safe pid s (server_of step s)
unfolding judge
judge-Safe s id pid valid mail step v e = elim (Bool-cases (eq_int valid (pos 1))) [
  | inl one ↦
      let is_one : valid ≡ pos 1 = ground arith in
      deliver-Safe s id pid mail step
        (λ m at_id. is_valid_sender-IsRegistered s id pid m (rw is_one at v) at_id) (rw one at e)
  | inr other ↦
      let is_step : step ≡ rejected (if eq_int valid minus_one then negsuc 3 else negsuc 4) =
        ground arith in
      rw is_step (Safe-refl pid s)
]

route-Safe :
    (s : Server) (pid : ℤ) (mail : Mail) (id : ℤ) (step : Step)
    → route s pid mail id ≡ done step
    → Safe pid s (server_of step s)
unfolding route
route-Safe s pid mail (negsuc n) step e =
    let is_step : step ≡ rejected (negsuc 2) = ground arith in rw is_step (Safe-refl pid s)
route-Safe s pid mail (pos id) step e =
    let (valid, v, e') = >>=-eq-done (is_valid_sender s (pos id) pid) _ e in
    judge-Safe s (pos id) pid valid mail step v e'

deposit_one-Safe :
    (s : Server) (dest pid : ℤ) (mail : Mail) (step : Step)
    → deposit_one s dest pid mail ≡ done step
    → Safe pid s (server_of step s)
unfolding deposit_one
deposit_one-Safe s dest pid mail step e =
    let (id, found, e') = >>=-eq-done (get_mb_id s dest) _ e in route-Safe s pid mail id step e'

deposit_loop-Safe :
    (ds : List ℤ) (pid : ℤ) (mail : Mail) (s : Server) (dests : List ℤ) (effects : List Effect)
    (e : LoopEnd)
    → deposit_loop ds pid mail s dests effects ≡ done e
    → Safe pid s e.server
unfolding deposit_loop
deposit_loop-Safe [] pid mail s dests effects e h =
    let k : e.server ≡ s = ground arith in rw k (Safe-refl pid s)
deposit_loop-Safe (pos zero ∷ ds) pid mail s dests effects e h =
    let k : e.server ≡ s = ground arith in rw k (Safe-refl pid s)
deposit_loop-Safe (negsuc n ∷ ds) pid mail s dests effects e h =
    let k : e.server ≡ s = ground arith in rw k (Safe-refl pid s)
deposit_loop-Safe (pos (suc n) ∷ ds) pid mail s dests effects e h =
    let (step, one, rest) = >>=-eq-done (deposit_one s (pos (suc n)) pid mail) _ h in
    next step (deposit_one-Safe s (pos (suc n)) pid mail step one)
      (λ s' dests' effects' h'. deposit_loop-Safe ds pid mail s' dests' effects' e h') rest
  where
    next :
        (step : Step)
        → Safe pid s (server_of step s)
        → ((s' : Server) (dests' : List ℤ) (effects' : List Effect)
            → deposit_loop ds pid mail s' dests' effects' ≡ done e
            → Safe pid s' e.server)
        → deposit_next step s dests effects (deposit_loop ds pid mail) ≡ done e
        → Safe pid s e.server
    next (rejected code) safe ih h' = let k : e.server ≡ s = ground arith in rw k safe
    next (delivered s' more) safe ih h' =
        Safe-trans pid s s' e.server safe (ih s' dests (effects ++ more) h')
    next (blocked s' id) safe ih h' =
        Safe-trans pid s s' e.server safe (ih s' (dests ++ (id ∷ [])) effects h')

suspend_sender-SameTables :
    (m_in : Message) (mail : Mail) (s : Server) (dests : List ℤ) (effects : List Effect)
    (o : Outcome)
    → suspend_sender m_in mail s dests effects ≡ done o
    → SameTables s o.server
unfolding suspend_sender
suspend_sender-SameTables m_in mail s dests effects o h =
    let (id, found, h₁) = >>=-eq-done (get_sender_local_id s m_in.i1) _ h in
    let (slot, there, h₂) = >>=-eq-done (access (at s.sus_context id)) _ h₁ in
    let s' = with_context m_in mail dests s id in
    let (dead, checked, h₃) = >>=-eq-done (check_dead_lock walk_fuel s' id) _ h₂ in
    elim (Bool-cases (eq_int dead (pos 1))) [
      | inl one ↦
          let (x, woken, h₄) = >>=-eq-done (indicate_deadlock walk_fuel s' id) _ (rw one at h₃) in
          let kept : SameTables s x.1 = indicate_deadlock-SameTables walk_fuel s' id x woken in
          (ground arith, ground arith)
      | inr other ↦ (ground arith, ground arith)
    ]

finish_deposit-SameTables :
    (early : Option ℤ) (dests : List ℤ) (m_in : Message) (mail : Mail) (s : Server)
    (effects : List Effect) (o : Outcome)
    → finish_deposit early dests m_in mail s effects ≡ done o
    → SameTables s o.server
unfolding finish_deposit
finish_deposit-SameTables (some code) dests m_in mail s effects o h = (ground arith, ground arith)
finish_deposit-SameTables none [] m_in mail s effects o h = (ground arith, ground arith)
finish_deposit-SameTables none (d ∷ ds) m_in mail s effects o h =
    suspend_sender-SameTables m_in mail s (d ∷ ds) effects o h

-- A call of `do_deposit` that returns, whatever it returns, has changed only mailboxes at which
-- the calling process is registered as a sender, and neither their owners nor their senders.
pub do_deposit-Safe :
    (dest : List ℤ) (text : List ℕ) (m_in : Message) (s : Server) (o : Outcome)
    → do_deposit dest text m_in s ≡ done o
    → Safe m_in.i1 s o.server
unfolding do_deposit
do_deposit-Safe dest text m_in s o h =
    let mail : Mail = record { bytes = text; sender_id = m_in.i1 } in
    let (e, loop, h') = >>=-eq-done (deposit_loop (take max_dest dest) m_in.i1 mail s [] []) _ h in
    let same_tables : SameTables e.server o.server =
      finish_deposit-SameTables e.early e.sus_dests m_in mail e.server e.effects o h' in
    Safe-trans m_in.i1 s e.server o.server
      (deposit_loop-Safe (take max_dest dest) m_in.i1 mail s [] [] e loop)
      (λ i. same (ap (λ l. get_elem? l i) same_tables.0), same_tables.1)
