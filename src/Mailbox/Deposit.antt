-- ===== src/Mailbox/Deposit.antt =====
-- `do_deposit`: the loop over the destinations, and the suspension of the sender.
pub mod Auth
pub mod Change
pub mod Circle
mod Tests
use cs551os.Prelude.{
  ℕ, zero, suc, ◌+◌, ◌++◌, Bool, none, some, List, [], ◌∷◌, Option, ℤ, pos, negsuc, minus_one,
  eq_int, is_neg, at, ltb, length, set, take, if◌then◌else◌, Run, done, fault, access, ◌>>=◌,
}
use cs551os.Mailbox.State.{
  Server, MailBox, Mail, Message, SuspendContext, Effect, copy_ints, Answer, ret, suspend, Outcome,
  mailbox, put_mailbox, returns, set_at, max_senders, max_mailboxes,
}
use cs551os.Mailbox.Queue.{put_msg}
use cs551os.Mailbox.Lookup.{get_mb_id, get_sender_local_id, is_valid_sender}
use cs551os.Mailbox.Deadlock.{check_dead_lock, indicate_deadlock, f_ret_2}

abbrev pub max_dest : ℕ
max_dest = 10

-- What one destination leads to: an early return, a delivery, or a full mailbox.
pub data Step : Type 0 where
  rejected : ℤ → Step
  delivered : Server → List Effect → Step
  blocked : Server → ℤ → Step

-- `suspended_sender[sus_sender_idx++] = tx_pid`: a write past the array is a fault.
unfoldable pub note_suspended : MailBox → ℤ → Run MailBox
note_suspended m tx_pid =
    if ltb m.sus_sender_idx max_senders
    then done (record m {
      suspended_sender = set m.suspended_sender m.sus_sender_idx tx_pid;
      sus_sender_idx = m.sus_sender_idx + 1;
    })
    else fault

-- What follows `putMsg`: with the mailbox full, the sender goes to its list of the suspended.
unfoldable pub settle : Server → ℤ → ℤ → ℤ × MailBox × List Effect → Run Step
settle s dest_id tx_pid (r, m, effects) =
    if eq_int r minus_one
    then (do m' ← note_suspended m tx_pid; done (blocked (put_mailbox s dest_id m') dest_id))
    else done (delivered (put_mailbox s dest_id m) effects)

-- The mail goes to the mailbox of a sender that is authorised.
unfoldable pub deliver : Server → ℤ → ℤ → Mail → Run Step
deliver s dest_id tx_pid mail = do
  m ← mailbox s dest_id
  x ← put_msg m mail
  settle s dest_id tx_pid x

-- What follows `isValidSender`.
unfoldable pub judge : Server → ℤ → ℤ → Mail → ℤ → Run Step
judge s dest_id tx_pid mail valid =
    if eq_int valid (pos 1)
    then deliver s dest_id tx_pid mail
    else done (rejected (if eq_int valid minus_one then negsuc 3 else negsuc 4))

-- What follows `get_mb_id`.
unfoldable pub route : Server → ℤ → Mail → ℤ → Run Step
route s tx_pid mail (negsuc n) = done (rejected (negsuc 2))
route s tx_pid mail (pos id) = do
  valid ← is_valid_sender s (pos id) tx_pid
  judge s (pos id) tx_pid mail valid

-- The body of the loop for one destination that is a process id.
unfoldable pub deposit_one : Server → ℤ → ℤ → Mail → Run Step
deposit_one s dest tx_pid mail = do dest_id ← get_mb_id s dest; route s tx_pid mail dest_id

-- How the loop ends: with the code of an early return, or at a terminator with `sus_dests`.
pub record LoopEnd : Type 0 where
  pub early : Option ℤ
  pub server : Server
  pub sus_dests : List ℤ
  pub effects : List Effect

unfoldable pub deposit_next :
    Step
    → Server
    → List ℤ
    → List Effect
    → (Server → List ℤ → List Effect → Run LoopEnd)
    → Run LoopEnd
deposit_next (rejected code) s dests effects loop =
    done (record { early = some code; server = s; sus_dests = dests; effects = effects })
deposit_next (delivered s' more) s dests effects loop = loop s' dests (effects ++ more)
deposit_next (blocked s' id) s dests effects loop = loop s' (dests ++ (id ∷ [])) effects

-- The destination list ends at a zero (`NULL`), at a negative number, or after `MAX_DEST` entries.
unfoldable pub deposit_loop : List ℤ → ℤ → Mail → Server → List ℤ → List Effect → Run LoopEnd
unfolding deposit_next
deposit_loop [] tx_pid mail s dests effects =
    done (record { early = none; server = s; sus_dests = dests; effects = effects })
deposit_loop (pos zero ∷ ds) tx_pid mail s dests effects =
    done (record { early = none; server = s; sus_dests = dests; effects = effects })
deposit_loop (negsuc n ∷ ds) tx_pid mail s dests effects =
    done (record { early = none; server = s; sus_dests = dests; effects = effects })
deposit_loop (pos (suc n) ∷ ds) tx_pid mail s dests effects = do
  step ← deposit_one s (pos (suc n)) tx_pid mail
  deposit_next step s dests effects
      (λ s' dests' effects'. deposit_loop ds tx_pid mail s' dests' effects')

-- More rounds than `susContext` has entries.
abbrev pub walk_fuel : ℕ
walk_fuel = 101

-- The sender's context, allocated or reused: every field is written.
unfoldable pub sus_context_of : Message → Mail → List ℤ → SuspendContext
sus_context_of m_in mail dests = record {
  msg = mail;
  suspended_for = dests;
  len_sus_for = length dests;
  sus_end_p = m_in.who_p;
  sus_m_source = m_in.m_source;
  sus_p1 = m_in.p1;
  sus_p2 = m_in.p2;
}

unfoldable pub with_context : Message → Mail → List ℤ → Server → ℤ → Server
unfolding sus_context_of
with_context m_in mail dests s local_id = record s {
  sus_context = set_at s.sus_context local_id (some (sus_context_of m_in mail dests));
}

-- The answer, once `check_dead_lock` has answered.
unfoldable pub answer_deposit :
    Message → Server → List Effect → (local_id dead_lock : ℤ) → Run Outcome
answer_deposit m_in s effects local_id dead_lock =
    if eq_int dead_lock (pos 1)
    then (do
      (r, s', more) ← indicate_deadlock walk_fuel s local_id
      done (record {
        answer = ret (pos 0);
        server = s';
        effects = effects ++ (more ++ (copy_ints m_in.m_source m_in.p2 f_ret_2 ∷ []));
      }))
    else done (record { answer = suspend; server = s; effects = effects })

-- The part behind the loop, for a sender with at least one full mailbox.
unfoldable pub suspend_sender : Message → Mail → Server → List ℤ → List Effect → Run Outcome
unfolding with_context answer_deposit
suspend_sender m_in mail s dests effects = do
  local_id ← get_sender_local_id s m_in.i1
  slot ← access (at s.sus_context local_id)
  dead_lock ← check_dead_lock walk_fuel (with_context m_in mail dests s local_id) local_id
  answer_deposit m_in (with_context m_in mail dests s local_id) effects local_id dead_lock

unfoldable pub finish_deposit :
    Option ℤ → List ℤ → Message → Mail → Server → List Effect → Run Outcome
finish_deposit (some code) dests m_in mail s effects = returns code s effects
finish_deposit none [] m_in mail s effects = returns (pos 0) s effects
finish_deposit none (d ∷ ds) m_in mail s effects = suspend_sender m_in mail s (d ∷ ds) effects

-- `dest` and `text` are the ints and bytes that `sys_datacopy` brings from the caller's memory.
unfoldable pub do_deposit : (dest : List ℤ) (text : List ℕ) → Message → Server → Run Outcome
unfolding deposit_loop finish_deposit
do_deposit dest text m_in s =
    let mail : Mail = record { bytes = text; sender_id = m_in.i1 } in
    do
      e ← deposit_loop (take max_dest dest) m_in.i1 mail s [] []
      finish_deposit e.early e.sus_dests m_in mail e.server e.effects
