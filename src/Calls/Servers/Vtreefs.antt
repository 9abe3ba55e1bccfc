-- ===== src/Calls/Servers/Vtreefs.antt =====
-- The table of libvtreefs, prj_3/src/src-lib-libvtreefs/table.c.
use cs551os.Prelude.{ℕ, List, [], ◌∷◌}

-- The handlers of the table.
pub data Handler : Type 0 where
  no_sys fs_putnode do_noop fs_stat fs_fstatfs : Handler
  fs_unmount fs_read fs_lookup fs_readsuper fs_rdlink : Handler
  fs_getdents fs_statvfs : Handler

-- The handlers, counted.
abbrev pub code : Handler → ℕ
code no_sys = 0
code fs_putnode = 1
code do_noop = 2
code fs_stat = 3
code fs_fstatfs = 4
code fs_unmount = 5
code fs_read = 6
code fs_lookup = 7
code fs_readsuper = 8
code fs_rdlink = 9
code fs_getdents = 10
code fs_statvfs = 11

-- `fs_call_vec`
abbrev pub fs_call_vec : List Handler
fs_call_vec =
    no_sys ∷ no_sys ∷ fs_putnode ∷ no_sys ∷ no_sys ∷ no_sys ∷ no_sys ∷ do_noop ∷ fs_stat ∷ no_sys
    ∷ fs_fstatfs ∷ no_sys ∷ no_sys ∷ no_sys ∷ no_sys ∷ fs_unmount ∷ do_noop ∷ do_noop ∷ no_sys
    ∷ fs_read ∷ no_sys ∷ no_sys ∷ no_sys ∷ no_sys ∷ no_sys ∷ no_sys ∷ fs_lookup ∷ no_sys
    ∷ fs_readsuper ∷ no_sys ∷ fs_rdlink ∷ fs_getdents ∷ fs_statvfs ∷ no_sys ∷ no_sys ∷ no_sys ∷ []
