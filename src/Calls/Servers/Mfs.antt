-- ===== src/Calls/Servers/Mfs.antt =====
-- The table of mfs, prj_3/src/mfs/table.c.
use cs551os.Prelude.{ℕ, List, [], ◌∷◌}

-- The handlers of the table.
pub data Handler : Type 0 where
  no_sys fs_putnode fs_slink fs_ftrunc fs_chown : Handler
  fs_chmod fs_inhibread fs_stat fs_utime fs_fstatfs : Handler
  fs_breadwrite fs_unlink fs_unmount fs_sync fs_new_driver : Handler
  fs_flush fs_readwrite fs_mknod fs_mkdir fs_create : Handler
  fs_link fs_rename fs_lookup fs_mountpoint fs_readsuper : Handler
  fs_rdlink fs_getdents fs_statvfs fs_getfrag fs_get_inode_blocks : Handler
  fs_get_int_frag : Handler

-- The handlers, counted.
abbrev pub code : Handler → ℕ
code no_sys = 0
code fs_putnode = 1
code fs_slink = 2
code fs_ftrunc = 3
code fs_chown = 4
code fs_chmod = 5
code fs_inhibread = 6
code fs_stat = 7
code fs_utime = 8
code fs_fstatfs = 9
code fs_breadwrite = 10
code fs_unlink = 11
code fs_unmount = 12
code fs_sync = 13
code fs_new_driver = 14
code fs_flush = 15
code fs_readwrite = 16
code fs_mknod = 17
code fs_mkdir = 18
code fs_create = 19
code fs_link = 20
code fs_rename = 21
code fs_lookup = 22
code fs_mountpoint = 23
code fs_readsuper = 24
code fs_rdlink = 25
code fs_getdents = 26
code fs_statvfs = 27
code fs_getfrag = 28
code fs_get_inode_blocks = 29
code fs_get_int_frag = 30

-- `fs_call_vec`
abbrev pub fs_call_vec : List Handler
fs_call_vec =
    no_sys ∷ no_sys ∷ fs_putnode ∷ fs_slink ∷ fs_ftrunc ∷ fs_chown ∷ fs_chmod ∷ fs_inhibread
    ∷ fs_stat ∷ fs_utime ∷ fs_fstatfs ∷ fs_breadwrite ∷ fs_breadwrite ∷ fs_unlink ∷ fs_unlink
    ∷ fs_unmount ∷ fs_sync ∷ fs_new_driver ∷ fs_flush ∷ fs_readwrite ∷ fs_readwrite ∷ fs_mknod
    ∷ fs_mkdir ∷ fs_create ∷ fs_link ∷ fs_rename ∷ fs_lookup ∷ fs_mountpoint ∷ fs_readsuper ∷ no_sys
    ∷ fs_rdlink ∷ fs_getdents ∷ fs_statvfs ∷ fs_getfrag ∷ fs_get_inode_blocks ∷ fs_get_int_frag ∷ []
