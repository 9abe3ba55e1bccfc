-- ===== src/Calls/Servers.antt =====
-- The requests of VFS to the file servers of prj_3.
pub mod Mfs
pub mod Hgfs
pub mod Vtreefs
use cs551os.Prelude.{ℕ}
use cs551os.FsTool.{FsRequest, req_extfrag, req_getinodeblocks, req_int_frag}

-- The numbers of the added requests, behind VFS_BASE.
abbrev pub request_number : FsRequest → ℕ
request_number req_extfrag = 33
request_number (req_getinodeblocks inode_nr dev) = 34
request_number (req_int_frag inode_nr dev) = 35

-- NREQS
abbrev pub nreqs : ℕ
nreqs = 36
