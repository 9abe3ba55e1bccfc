-- ===== src/Mailbox/Client.antt =====
-- The library of the callers, prj_2/src/mailbox_lib.c.
pub mod Laws
use cs551os.Prelude.{ℕ, ℤ, pos, Option, none, some, eq_int, is_neg, if◌then◌else◌}
use cs551os.Mailbox.State.{Message}

-- What `getpid`, `getuid` and `getgid` give to the caller.
pub record Caller : Type 0 where
  pub pid : ℤ
  pub uid : ℤ
  pub gid : ℤ

-- The numbers of the calls.
pub data CallNumber : Type 0 where
  nr_deposit nr_retrieve nr_create_mb nr_destroy_mb nr_get_av_mb nr_register nr_get_senders :
      CallNumber

-- The message of each function; `mes` is what the memory of the message held before.
module _ (c : Caller) (mes : Message) where
  abbrev pub deposit_message : (dst msg : ℕ) → Message
  deposit_message dst msg = record mes { i1 = c.pid; p1 = msg; p2 = dst }

  abbrev pub retrieve_message : (msg : ℕ) → Message
  retrieve_message msg = record mes { i1 = c.pid; p1 = msg }

  abbrev pub create_message : (permissions : ℤ) → Message
  create_message permissions = record mes { i1 = c.pid; i2 = c.uid; i3 = c.gid; i4 = permissions }

  abbrev pub destroy_message : (id : ℤ) → Message
  destroy_message id = record mes { i1 = c.pid; i4 = id }

  abbrev pub get_av_message : (mb_list : ℕ) → Message
  get_av_message mb_list = record mes { i1 = c.pid; i2 = c.uid; i3 = c.gid; p1 = mb_list }

  abbrev pub register_message : (mb_id : ℤ) → Message
  register_message mb_id = record mes { i1 = c.pid; i2 = c.uid; i3 = c.gid; i4 = mb_id }

  abbrev pub get_senders_message : (mb_id : ℤ) (sender_list : ℕ) → Message
  get_senders_message mb_id sender_list = record mes { i1 = c.pid; i4 = mb_id; p1 = sender_list }

  -- The functions; `_syscall` of MINIX is a parameter.
  module _ (syscall : CallNumber → Message → ℤ) where
    -- With `dst0` as `dst[0]` after the call; `none` is the end of the function without a `return`.
    abbrev pub deposit : (dst msg : ℕ) (dst0 : ℤ) → Option ℤ
    deposit dst msg dst0 =
        let ret_val = syscall nr_deposit (deposit_message dst msg) in
        if eq_int ret_val (pos 0) then some (if is_neg dst0 then dst0 else ret_val) else none

    abbrev pub retrieve : (msg : ℕ) → ℤ
    retrieve msg = syscall nr_retrieve (retrieve_message msg)

    abbrev pub create_mailbox : (permissions : ℤ) → ℤ
    create_mailbox permissions = syscall nr_create_mb (create_message permissions)

    abbrev pub destroy_mailbox : (id : ℤ) → ℤ
    destroy_mailbox id = syscall nr_destroy_mb (destroy_message id)

    abbrev pub get_av_mailboxes : (mb_list : ℕ) → ℤ
    get_av_mailboxes mb_list = syscall nr_get_av_mb (get_av_message mb_list)

    abbrev pub register_mb : (mb_id : ℤ) → ℤ
    register_mb mb_id = syscall nr_register (register_message mb_id)

    abbrev pub get_senders : (mb_id : ℤ) (sender_list : ℕ) → ℤ
    get_senders mb_id sender_list = syscall nr_get_senders (get_senders_message mb_id sender_list)
