-- ===== src/Calls/Servers/Hgfs.antt =====
-- The table of hgfs, prj_3/src/hgfs/table.c.
use cs551os.Prelude.{ℕ, List, [], ◌∷◌}

-- The handlers of the table.
pub data Handler : Type 0 where
  no_sys do_putnode do_ftrunc do_chmod do_noop : Handler
  do_stat do_utime do_fstatfs do_unlink do_rmdir : Handler
  do_unmount do_read do_write do_mkdir do_create : Handler
  do_rename do_lookup do_readsuper do_getdents do_statvfs : Handler

-- The handlers, counted.
abbrev pub code : Handler → ℕ
code no_sys = 0
code do_putnode = 1
code do_ftrunc = 2
code do_chmod = 3
code do_noop = 4
code do_stat = 5
code do_utime = 6
code do_fstatfs = 7
code do_unlink = 8
code do_rmdir = 9
code do_unmount = 10
code do_read = 11
code do_write = 12
code do_mkdir = 13
code do_create = 14
code do_rename = 15
code do_lookup = 16
code do_readsuper = 17
code do_getdents = 18
code do_statvfs = 19

-- `call_vec`
abbrev pub call_vec : List Handler
call_vec =
    no_sys ∷ no_sys ∷ do_putnode ∷ no_sys ∷ do_ftrunc ∷ no_sys ∷ do_chmod ∷ do_noop ∷ do_stat
    ∷ do_utime ∷ do_fstatfs ∷ no_sys ∷ no_sys ∷ do_unlink ∷ do_rmdir ∷ do_unmount ∷ do_noop
    ∷ do_noop ∷ do_noop ∷ do_read ∷ do_write ∷ no_sys ∷ do_mkdir ∷ do_create ∷ no_sys ∷ do_rename
    ∷ do_lookup ∷ no_sys ∷ do_readsuper ∷ no_sys ∷ no_sys ∷ do_getdents ∷ do_statvfs ∷ no_sys
    ∷ no_sys ∷ no_sys ∷ []
