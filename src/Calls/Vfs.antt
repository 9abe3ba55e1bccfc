-- ===== src/Calls/Vfs.antt =====
-- The system calls of VFS, in both projects.
use cs551os.Prelude.{ℕ, List, [], ◌∷◌}
use cs551os.Mailbox.Client.{
  CallNumber, nr_deposit, nr_retrieve, nr_create_mb, nr_destroy_mb, nr_get_av_mb, nr_register,
  nr_get_senders,
}

-- The handlers of the tables.
pub data Handler : Type 0 where
  no_sys do_read do_write do_open do_close : Handler
  do_creat do_link do_unlink do_chdir do_mknod : Handler
  do_chmod do_chown do_stat do_lseek do_mount : Handler
  do_umount do_fstat do_utime do_access do_sync : Handler
  do_rename do_mkdir do_dup do_pipe do_slink : Handler
  do_rdlink do_lstat do_ioctl do_fcntl do_fsready : Handler
  do_umask do_chroot do_svrctl do_destroy_mailbox do_getdents : Handler
  do_llseek do_fstatfs do_statvfs do_fstatvfs do_select : Handler
  do_fchdir do_fsync do_truncate do_ftruncate do_deposit : Handler
  do_retrieve do_create_mailbox do_get_av_mailboxes do_register_mb do_get_senders : Handler
  do_gcov_flush do_fileinfo do_fraginfo : Handler

-- The handlers, counted.
abbrev pub code : Handler → ℕ
code no_sys = 0
code do_read = 1
code do_write = 2
code do_open = 3
code do_close = 4
code do_creat = 5
code do_link = 6
code do_unlink = 7
code do_chdir = 8
code do_mknod = 9
code do_chmod = 10
code do_chown = 11
code do_stat = 12
code do_lseek = 13
code do_mount = 14
code do_umount = 15
code do_fstat = 16
code do_utime = 17
code do_access = 18
code do_sync = 19
code do_rename = 20
code do_mkdir = 21
code do_dup = 22
code do_pipe = 23
code do_slink = 24
code do_rdlink = 25
code do_lstat = 26
code do_ioctl = 27
code do_fcntl = 28
code do_fsready = 29
code do_umask = 30
code do_chroot = 31
code do_svrctl = 32
code do_destroy_mailbox = 33
code do_getdents = 34
code do_llseek = 35
code do_fstatfs = 36
code do_statvfs = 37
code do_fstatvfs = 38
code do_select = 39
code do_fchdir = 40
code do_fsync = 41
code do_truncate = 42
code do_ftruncate = 43
code do_deposit = 44
code do_retrieve = 45
code do_create_mailbox = 46
code do_get_av_mailboxes = 47
code do_register_mb = 48
code do_get_senders = 49
code do_gcov_flush = 50
code do_fileinfo = 51
code do_fraginfo = 52

-- `call_vec` of prj_2.
abbrev pub mailbox_call_vec : List Handler
mailbox_call_vec =
    no_sys ∷ no_sys ∷ no_sys ∷ do_read ∷ do_write ∷ do_open ∷ do_close ∷ no_sys ∷ do_creat ∷ do_link
    ∷ do_unlink ∷ no_sys ∷ do_chdir ∷ no_sys ∷ do_mknod ∷ do_chmod ∷ do_chown ∷ no_sys ∷ do_stat
    ∷ do_lseek ∷ no_sys ∷ do_mount ∷ do_umount ∷ no_sys ∷ no_sys ∷ no_sys ∷ no_sys ∷ no_sys
    ∷ do_fstat ∷ no_sys ∷ do_utime ∷ no_sys ∷ no_sys ∷ do_access ∷ no_sys ∷ no_sys ∷ do_sync
    ∷ no_sys ∷ do_rename ∷ do_mkdir ∷ do_unlink ∷ do_dup ∷ do_pipe ∷ no_sys ∷ no_sys ∷ do_slink
    ∷ no_sys ∷ no_sys ∷ no_sys ∷ do_rdlink ∷ do_lstat ∷ do_stat ∷ do_fstat ∷ do_lstat ∷ do_ioctl
    ∷ do_fcntl ∷ no_sys ∷ do_fsready ∷ no_sys ∷ no_sys ∷ do_umask ∷ do_chroot ∷ no_sys ∷ no_sys
    ∷ no_sys ∷ do_stat ∷ do_fstat ∷ do_lstat ∷ no_sys ∷ no_sys ∷ no_sys ∷ no_sys ∷ no_sys ∷ no_sys
    ∷ no_sys ∷ no_sys ∷ no_sys ∷ do_svrctl ∷ no_sys ∷ do_destroy_mailbox ∷ do_getdents ∷ do_llseek
    ∷ do_fstatfs ∷ do_statvfs ∷ do_fstatvfs ∷ do_select ∷ do_fchdir ∷ do_fsync ∷ no_sys ∷ no_sys
    ∷ no_sys ∷ no_sys ∷ no_sys ∷ do_truncate ∷ do_ftruncate ∷ do_chmod ∷ do_chown ∷ do_deposit
    ∷ no_sys ∷ no_sys ∷ no_sys ∷ no_sys ∷ no_sys ∷ do_retrieve ∷ no_sys ∷ do_create_mailbox ∷ no_sys
    ∷ no_sys ∷ do_get_av_mailboxes ∷ do_register_mb ∷ do_get_senders ∷ no_sys ∷ do_gcov_flush
    ∷ no_sys ∷ []

-- `call_vec` of prj_3.
abbrev pub file_call_vec : List Handler
file_call_vec =
    no_sys ∷ no_sys ∷ no_sys ∷ do_read ∷ do_write ∷ do_open ∷ do_close ∷ no_sys ∷ do_creat ∷ do_link
    ∷ do_unlink ∷ no_sys ∷ do_chdir ∷ no_sys ∷ do_mknod ∷ do_chmod ∷ do_chown ∷ no_sys ∷ do_stat
    ∷ do_lseek ∷ no_sys ∷ do_mount ∷ do_umount ∷ no_sys ∷ no_sys ∷ no_sys ∷ no_sys ∷ no_sys
    ∷ do_fstat ∷ no_sys ∷ do_utime ∷ no_sys ∷ no_sys ∷ do_access ∷ no_sys ∷ no_sys ∷ do_sync
    ∷ no_sys ∷ do_rename ∷ do_mkdir ∷ do_unlink ∷ do_dup ∷ do_pipe ∷ no_sys ∷ no_sys ∷ do_slink
    ∷ no_sys ∷ no_sys ∷ no_sys ∷ do_rdlink ∷ do_lstat ∷ do_stat ∷ do_fstat ∷ do_lstat ∷ do_ioctl
    ∷ do_fcntl ∷ no_sys ∷ do_fsready ∷ no_sys ∷ no_sys ∷ do_umask ∷ do_chroot ∷ no_sys ∷ no_sys
    ∷ no_sys ∷ do_stat ∷ do_fstat ∷ do_lstat ∷ no_sys ∷ do_fileinfo ∷ do_fraginfo ∷ no_sys ∷ no_sys
    ∷ no_sys ∷ no_sys ∷ no_sys ∷ no_sys ∷ do_svrctl ∷ no_sys ∷ no_sys ∷ do_getdents ∷ do_llseek
    ∷ do_fstatfs ∷ do_statvfs ∷ do_fstatvfs ∷ do_select ∷ do_fchdir ∷ do_fsync ∷ no_sys ∷ no_sys
    ∷ no_sys ∷ no_sys ∷ no_sys ∷ do_truncate ∷ do_ftruncate ∷ do_chmod ∷ do_chown ∷ no_sys ∷ no_sys
    ∷ no_sys ∷ no_sys ∷ no_sys ∷ no_sys ∷ no_sys ∷ no_sys ∷ no_sys ∷ no_sys ∷ no_sys ∷ no_sys
    ∷ no_sys ∷ no_sys ∷ no_sys ∷ do_gcov_flush ∷ no_sys ∷ []

-- NCALLS, in both.
abbrev pub ncalls : ℕ
ncalls = 114

-- The numbers of the mailbox calls.
abbrev pub call_number : CallNumber → ℕ
call_number nr_deposit = 97
call_number nr_retrieve = 103
call_number nr_create_mb = 105
call_number nr_destroy_mb = 79
call_number nr_get_av_mb = 108
call_number nr_register = 109
call_number nr_get_senders = 110

-- FILEINFO and FRAGINFO.
abbrev pub fileinfo_number : ℕ
fileinfo_number = 69

abbrev pub fraginfo_number : ℕ
fraginfo_number = 70
