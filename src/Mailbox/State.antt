-- ===== src/Mailbox/State.antt =====
-- The globals and structures of prj_2/src/mailbox.c, and the calls' effects on other processes.
use cs551os.Prelude.{
  ℕ, ◌*◌, Bool, Option, some, List, [], ℤ, pos, at, set, replicate, Run, done, access, ◌>>=◌,
}

abbrev pub max_senders : ℕ
max_senders = 10

abbrev pub max_mailboxes : ℕ
max_mailboxes = 10

abbrev pub mb_capacity : ℕ
mb_capacity = 10

-- The permission bits.
abbrev pub user : ℕ
user = 4

abbrev pub group : ℕ
group = 2

abbrev pub everyone : ℕ
everyone = 1

-- The request `m_in` of a call, with the caller's slot `who_p`. Addresses are numbers.
pub record Message : Type 0 where
  pub m_source : ℕ
  pub who_p : ℕ
  pub i1 : ℤ
  pub i2 : ℤ
  pub i3 : ℤ
  pub i4 : ℤ
  pub p1 : ℕ
  pub p2 : ℕ

-- `struct Message_mb`
pub record Mail : Type 0 where
  pub bytes : List ℕ
  pub sender_id : ℤ

-- `struct SuspendContext`; of `sus_message` the code uses the two pointers.
pub record SuspendContext : Type 0 where
  pub msg : Mail
  pub suspended_for : List ℤ
  pub len_sus_for : ℕ
  pub sus_end_p : ℕ
  pub sus_m_source : ℕ
  pub sus_p1 : ℕ
  pub sus_p2 : ℕ

-- `struct MailBox`. The nodes from `front` to `rear` are a list, `none` while `front` is
-- indeterminate; `sus_message` is its pointer `m7_p1`.
pub record MailBox : Type 0 where
  pub mb_id : ℤ
  pub owner_pid : ℤ
  pub owner_uid : ℤ
  pub owner_gid : ℤ
  pub perm : ℤ
  pub senders : List ℤ
  pub suspended_sender : List ℤ
  pub sus_sender_idx : ℕ
  pub num_senders : ℕ
  pub num_messages : ℕ
  pub rx_suspended : Bool
  pub sus_end_p : ℕ
  pub sus_m_source : ℕ
  pub sus_p1 : ℕ
  pub queue : Option (List Mail)

-- The globals. Before the first `do_create_mailbox` the pointers `mbList` and `susContext` are
-- NULL: the two lists are empty, so that every access faults.
pub record Server : Type 0 where
  pub mb_id_pool : ℕ
  pub num_active_mailboxes : ℕ
  pub sender_db : List ℤ
  pub mb_list : List (Option MailBox)
  pub sus_context : List (Option SuspendContext)
  pub initialize : ℕ

-- What a call does to other processes: `sys_datacopy` out of the server, the mark FP_REVIVED and
-- `reply` on a slot of `fproc`. An int that was never written is `none`.
pub data Effect : Type 0 where
  copy_bytes : ℕ → ℕ → List ℕ → Effect
  copy_ints : ℕ → ℕ → List (Option ℤ) → Effect
  revive : ℕ → Effect
  reply : ℕ → Effect

-- What a call returns to the caller: an int, or SUSPEND.
pub data Answer : Type 0 where
  ret : ℤ → Answer
  suspend : Answer

pub record Outcome : Type 0 where
  pub answer : Answer
  pub server : Server
  pub effects : List Effect

-- The server as it starts: zeroed globals.
unfoldable pub boot : Server
boot = record {
  mb_id_pool = 0;
  num_active_mailboxes = 0;
  sender_db = replicate (max_senders * max_mailboxes) (pos 0);
  mb_list = [];
  sus_context = [];
  initialize = 0;
}

-- `mbList[id]->…`: a fault through a NULL pointer and outside of the array.
unfoldable pub mailbox : Server → ℤ → Run MailBox
mailbox s id = do slot ← access (at s.mb_list id); access slot

-- `*mbList[id] = mb`, after an access to `mbList[id]`.
abbrev pub set_at {ℓ} : {A : Type ℓ} → List A → ℤ → A → List A
set_at xs (pos i) v = set xs i v
set_at xs (ℤ.negsuc i) v = xs

abbrev pub put_mailbox : Server → ℤ → MailBox → Server
put_mailbox s id mb = record s { mb_list = set_at s.mb_list id (some mb) }

-- A call that returns an int.
abbrev pub returns : ℤ → Server → List Effect → Run Outcome
returns code s effects = done (record { answer = ret code; server = s; effects = effects })
