-- ===== src/Calls/Routes.antt =====
-- From the numbers to the handlers.
use cs551os.Prelude.{ℕ, ◌≡◌, refl, some, List, [], ◌∷◌, length, get_elem?}
use cs551os.Mailbox.Client.{
  CallNumber, nr_deposit, nr_retrieve, nr_create_mb, nr_destroy_mb, nr_get_av_mb, nr_register,
  nr_get_senders,
}
use cs551os.FsTool.{FsRequest, req_extfrag, req_getinodeblocks, req_int_frag}
use cs551os.Calls.{places, differences}
use cs551os.Calls.Vfs
use cs551os.Calls.Vfs.{
  Handler, do_deposit, do_retrieve, do_create_mailbox, do_destroy_mailbox, do_get_av_mailboxes,
  do_register_mb, do_get_senders, do_fileinfo, do_fraginfo, mailbox_call_vec, file_call_vec, ncalls,
  call_number, fileinfo_number, fraginfo_number,
}
use cs551os.Calls.Servers.{request_number, nreqs}
use cs551os.Calls.Servers.Mfs
use cs551os.Calls.Servers.Hgfs
use cs551os.Calls.Servers.Vtreefs

-- The handler of each call of the mailbox library, and of each request.
abbrev pub handler_of : CallNumber → Handler
handler_of nr_deposit = do_deposit
handler_of nr_retrieve = do_retrieve
handler_of nr_create_mb = do_create_mailbox
handler_of nr_destroy_mb = do_destroy_mailbox
handler_of nr_get_av_mb = do_get_av_mailboxes
handler_of nr_register = do_register_mb
handler_of nr_get_senders = do_get_senders

abbrev pub server_of : FsRequest → Mfs.Handler
server_of req_extfrag = Mfs.fs_getfrag
server_of (req_getinodeblocks inode_nr dev) = Mfs.fs_get_inode_blocks
server_of (req_int_frag inode_nr dev) = Mfs.fs_get_int_frag

mailbox_routes :
    (c : CallNumber)
    → places Vfs.code (Vfs.code (handler_of c)) 0 mailbox_call_vec ≡ call_number c ∷ []
mailbox_routes nr_deposit = refl
mailbox_routes nr_retrieve = refl
mailbox_routes nr_create_mb = refl
mailbox_routes nr_destroy_mb = refl
mailbox_routes nr_get_av_mb = refl
mailbox_routes nr_register = refl
mailbox_routes nr_get_senders = refl

-- The added request leads to its handler in the MINIX file server, and to none in the others.
abbrev pub Requested : FsRequest → Type 0
Requested r =
    (places Mfs.code (Mfs.code (server_of r)) 0 Mfs.fs_call_vec ≡ request_number r ∷ [])
    × (get_elem? Hgfs.call_vec (request_number r) ≡ some Hgfs.no_sys)
    × (get_elem? Vtreefs.fs_call_vec (request_number r) ≡ some Vtreefs.no_sys)

request_routes : (r : FsRequest) → Requested r
request_routes req_extfrag = (refl, refl, refl)
request_routes (req_getinodeblocks inode_nr dev) = (refl, refl, refl)
request_routes (req_int_frag inode_nr dev) = (refl, refl, refl)

-- The tables have as many entries as they should.
abbrev pub sizes : List ℕ
sizes =
    length mailbox_call_vec
    ∷ length file_call_vec
    ∷ length Mfs.fs_call_vec
    ∷ length Hgfs.call_vec
    ∷ length Vtreefs.fs_call_vec
    ∷ []

-- The number of every function of the mailbox library leads to its handler in the table of prj_2,
-- and no other number does; FILEINFO and FRAGINFO lead to theirs in the table of prj_3; the two
-- tables of system calls differ at these nine numbers only; every added request leads to its
-- handler in the MINIX file server, and no other request does, while the other file servers have no
-- handler for it; and all the tables have the sizes that VFS declares.
routes :
    (c : CallNumber) (r : FsRequest)
    → (places Vfs.code (Vfs.code (handler_of c)) 0 mailbox_call_vec ≡ call_number c ∷ [])
      × (places Vfs.code (Vfs.code do_fileinfo) 0 file_call_vec ≡ fileinfo_number ∷ [])
      × (places Vfs.code (Vfs.code do_fraginfo) 0 file_call_vec ≡ fraginfo_number ∷ [])
      × (differences Vfs.code 0 mailbox_call_vec file_call_vec
          ≡ 69 ∷ 70 ∷ 79 ∷ 97 ∷ 103 ∷ 105 ∷ 108 ∷ 109 ∷ 110 ∷ [])
      × Requested r
      × (sizes ≡ ncalls ∷ ncalls ∷ nreqs ∷ nreqs ∷ nreqs ∷ [])
routes c r = (mailbox_routes c, refl, refl, refl, request_routes r, refl)
