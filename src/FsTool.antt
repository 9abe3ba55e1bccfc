-- ===== src/FsTool.antt =====
-- VFS's part of the file system tools: prj_3/src/fs_tool.c, the requests at the end of
-- prj_3/src/vfs/request.c, and the callers' library prj_3/src/fs_tool_lib.c.
pub mod Users
pub mod Laws
pub mod Handlers
mod Tests
use cs551os.Prelude.{
  ℕ, ◌+◌, ◌*◌, List, [], ◌∷◌, ◌++◌, ℤ, pos, minus_one, Option, none, some, if◌then◌else◌, ◌==◌, ltb,
  length, set, Run, done, fault, ◌>>=◌, ◌⊎◌, inl, inr, bit_and,
}

-- The fields that are used of a message to VFS.
pub record Message : Type 0 where
  pub m1_i1 : ℕ
  pub m1_i2 : ℕ
  pub m1_p1 : ℕ

-- An open file of a process; a vnode is given by its address.
pub record Filp : Type 0 where
  pub filp_vno : ℕ
  pub filp_mode : ℕ

-- A process; `fp_filp` has `none` for NULL.
pub record Fproc : Type 0 where
  pub fp_pid : ℕ
  pub fp_filp : List (Option Filp)

pub record Vnode : Type 0 where
  pub address : ℕ
  pub v_fs_e : ℕ
  pub v_inode_nr : ℕ
  pub v_dev : ℕ

-- A request to a file server, the inode and the device in the last two.
pub data FsRequest : Type 0 where
  req_extfrag : FsRequest
  req_getinodeblocks : ℕ → ℕ → FsRequest
  req_int_frag : ℕ → ℕ → FsRequest

-- What a handler does to the outside, in order: the lines printed, the requests sent, and the
-- locks and the reference given back.
pub data Effect : Type 0 where
  print_header : Effect
  print_user : ℕ → ℕ → Effect
  print_count : ℕ → Effect
  print_request : ℕ → ℕ → Effect
  sent : ℕ → FsRequest → Effect
  unlock_vnode : ℕ → Effect
  unlock_vmnt : Effect
  put_vnode : ℕ → Effect

-- MINIX's part: the table of processes, `fetch_name` of an address and a length, and `eat_path`,
-- which give the error code or the result, the answers of the file servers, and what the memory of
-- the array `pid_info` held before, which has NR_PROCS entries.
pub record Vfs : Type 0 where
  pub fproc : List Fproc
  pub fetch_name : ℕ → ℕ → ℤ ⊎ List ℕ
  pub eat_path : List ℕ → ℤ ⊎ Vnode
  pub fs_sendrec : ℕ → FsRequest → ℤ
  pub pid_info : List ℤ

-- Vfs/request.c: the answer of the file server, and what is printed and sent.
abbrev pub send : Vfs → ℕ → FsRequest → ℤ × List Effect
send vfs fs_e m = (vfs.fs_sendrec fs_e m, sent fs_e m ∷ [])

abbrev pub req_inode_blocks : Vfs → ℕ → ℕ → ℕ → ℤ × List Effect
req_inode_blocks vfs fs_e inode_nr dev = send vfs fs_e (req_getinodeblocks inode_nr dev)

-- A trace is printed first, whatever the mode.
abbrev pub req_int_fragments : Vfs → ℕ → ℕ → ℕ → ℤ × List Effect
req_int_fragments vfs fs_e inode_nr dev =
    let (r, effects) = send vfs fs_e (req_int_frag inode_nr dev) in
    (r, print_request inode_nr dev ∷ effects)

abbrev pub req_frag : Vfs → ℕ → ℤ × List Effect
req_frag vfs fs_e = send vfs fs_e req_extfrag

-- The variables of the scan over the processes, with what was done so far.
pub record Scan : Type 0 where
  pub f_open_count : ℕ
  pub pid_info : List ℤ
  pub effects : List Effect

-- `pid_info[2 * f_open_count] = a; pid_info[2 * f_open_count + 1] = b`
unfoldable pub store_pair : ℤ → ℤ → Scan → Run (List ℤ)
store_pair a b s =
    if ltb (2 * s.f_open_count + 1) (length s.pid_info)
    then done (set (set s.pid_info (2 * s.f_open_count) a) (2 * s.f_open_count + 1) b)
    else fault

-- A file pointer to the vnode: a line is printed, and the pair stored.
unfoldable pub note_user : ℕ → Filp → Scan → Run Scan
note_user pid f s = do
  let header = if s.f_open_count == 0 then print_header ∷ [] else []
  info ← store_pair (pos pid) (pos f.filp_mode) s
  done (record {
    f_open_count = s.f_open_count + 1;
    pid_info = info;
    effects = s.effects ++ (header ++ (print_user pid f.filp_mode ∷ []));
  })

-- The loop over the files of one process.
unfoldable pub scan_filps : ℕ → ℕ → List (Option Filp) → Scan → Run Scan
scan_filps vp pid [] s = done s
scan_filps vp pid (none ∷ fs) s = scan_filps vp pid fs s
scan_filps vp pid (some f ∷ fs) s =
    let skip = scan_filps vp pid fs s in
    let user = (do s' ← note_user pid f s; scan_filps vp pid fs s') in
    if f.filp_vno == vp then user else skip

-- The entries behind the last one.
abbrev pub terminate : Scan → Run Scan
terminate s = do info ← store_pair minus_one minus_one s; done (record s { pid_info = info })

-- The loop over the processes.
unfoldable pub scan_procs : ℕ → List Fproc → Scan → Run Scan
scan_procs vp [] s = done s
scan_procs vp (p ∷ ps) s =
    let skip = scan_procs vp ps s in
    let scanned = (do
      s' ← scan_filps vp p.fp_pid p.fp_filp s
      s'' ← terminate s'
      scan_procs vp ps s'') in
    if p.fp_pid == 0 then skip else scanned

-- A request is sent if its bit of the mode is set, and its answer is the new `retVal`.
abbrev pub request_if : ℕ → ℕ → ℤ × List Effect → ℤ × List Effect → ℤ × List Effect
request_if op_mode bit (r, more) (ret_val, effects) =
    if bit_and op_mode bit == bit then (r, effects ++ more) else (ret_val, effects)

abbrev pub release : Vnode → List Effect
release vp = unlock_vnode vp.address ∷ unlock_vmnt ∷ put_vnode vp.address ∷ []

abbrev pub first_scan : List ℤ → Scan
first_scan pid_info = record { f_open_count = 0; pid_info = pid_info; effects = [] }

-- The first part of `do_fileinfo`, for the bit 0x1.
abbrev pub list_users : Vfs → ℕ → Vnode → Run (List Effect)
list_users vfs op_mode vp =
    if bit_and op_mode 1 == 1
    then (do
      s ← scan_procs vp.address vfs.fproc (first_scan vfs.pid_info)
      done (s.effects ++ (print_count s.f_open_count ∷ [])))
    else done []

-- With the path looked up.
unfoldable pub fileinfo_of : Vfs → ℕ → Vnode → Run (ℤ × List Effect)
fileinfo_of vfs op_mode vp = do
  effects ← list_users vfs op_mode vp
  let x =
      request_if op_mode 2 (req_inode_blocks vfs vp.v_fs_e vp.v_inode_nr vp.v_dev) (pos 0, effects)
  let y = request_if op_mode 4 (req_int_fragments vfs vp.v_fs_e vp.v_inode_nr vp.v_dev) x
  done (y.0, y.1 ++ release vp)

-- Both handlers look the path up, and give the error code of a part that fails.
abbrev pub with_vnode : ℤ ⊎ Vnode → (Vnode → Run (ℤ × List Effect)) → Run (ℤ × List Effect)
with_vnode (inl err) rest = done (err, [])
with_vnode (inr vp) rest = rest vp

abbrev pub with_name : Vfs → ℤ ⊎ List ℕ → (Vnode → Run (ℤ × List Effect)) → Run (ℤ × List Effect)
with_name vfs (inl err) rest = done (err, [])
with_name vfs (inr path) rest = with_vnode (vfs.eat_path path) rest

abbrev pub with_path : Vfs → Message → (Vnode → Run (ℤ × List Effect)) → Run (ℤ × List Effect)
with_path vfs m_in rest = with_name vfs (vfs.fetch_name m_in.m1_p1 m_in.m1_i1) rest

unfoldable pub do_fileinfo : Vfs → Message → Run (ℤ × List Effect)
do_fileinfo vfs m_in = with_path vfs m_in (fileinfo_of vfs m_in.m1_i2)

-- The answer of the request is not looked at.
unfoldable pub do_fraginfo : Vfs → Message → Run (ℤ × List Effect)
do_fraginfo vfs m_in =
    with_path vfs m_in
      (λ vp. let (r, effects) = req_frag vfs vp.v_fs_e in done (pos 0, effects ++ release vp))

-- The numbers of the calls.
pub data CallNumber : Type 0 where
  nr_fileinfo nr_fraginfo : CallNumber

-- fs_tool_lib.c, with the name at an address; `_syscall` is a parameter.
module _ {ℓ} {R : Type ℓ} (syscall : CallNumber → Message → R) where
  unfoldable pub fileinfo : ℕ → List ℕ → ℕ → R
  fileinfo address fname mode =
      syscall nr_fileinfo (record { m1_i1 = length fname + 1; m1_i2 = mode; m1_p1 = address })

  unfoldable pub fraginfo : ℕ → List ℕ → ℕ → R
  fraginfo address fname mode =
      syscall nr_fraginfo (record { m1_i1 = length fname + 1; m1_i2 = mode; m1_p1 = address })

-- The two entries of VFS's call table.
abbrev pub call_table : Vfs → CallNumber → Message → Run (ℤ × List Effect)
call_table vfs nr_fileinfo m_in = do_fileinfo vfs m_in
call_table vfs nr_fraginfo m_in = do_fraginfo vfs m_in

-- A call as its caller sees it, with what MINIX's `_syscall` makes of the answer.
abbrev pub syscall_of : (ℤ → ℤ) → Vfs → CallNumber → Message → Run (ℤ × List Effect)
syscall_of returned vfs nr m_in = do
  (r, effects) ← call_table vfs nr m_in
  done (returned r, effects)
