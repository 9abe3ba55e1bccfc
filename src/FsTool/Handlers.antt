-- ===== src/FsTool/Handlers.antt =====
-- What a caller of `fileinfo` gets.
use cs551os.Prelude.{
  ℕ, ◌+◌, ◌*◌, ◌≤◌, ◌<◌, ◌≡◌, refl, List, [], ◌∷◌, ◌++◌, ℤ, pos, if◌then◌else◌, ◌==◌, length, Run,
  done, fault, inr, arith, bit_and, Bool-cases, inl,
}
use mathlib.Core.List.{append_assoc, append-nil}
use cs551os.FsTool.{
  Vfs, Vnode, Message, Effect, scan_procs, first_scan, fileinfo_of, do_fileinfo, release,
  print_count, print_request, sent, req_inode_blocks, req_int_fragments, req_getinodeblocks,
  req_int_frag, fileinfo, syscall_of, request_if, with_path, list_users, Scan,
}
use cs551os.FsTool.Users.{users, shown}
use cs551os.FsTool.Laws.{scan_procs-Gives, scan_procs-full}

-- The requests of a mode, and the answer that is given back: that of the last request.
abbrev pub asked : ℕ → Vnode → List Effect
asked mode vp =
    (if bit_and mode 2 == 2
      then sent vp.v_fs_e (req_getinodeblocks vp.v_inode_nr vp.v_dev) ∷ []
      else [])
    ++ (if bit_and mode 4 == 4
        then print_request vp.v_inode_nr vp.v_dev
          ∷ sent vp.v_fs_e (req_int_frag vp.v_inode_nr vp.v_dev)
          ∷ []
        else [])

abbrev pub answer : Vfs → ℕ → Vnode → ℤ
answer vfs mode vp =
    if bit_and mode 4 == 4
    then vfs.fs_sendrec vp.v_fs_e (req_int_frag vp.v_inode_nr vp.v_dev)
    else if bit_and mode 2 == 2
    then vfs.fs_sendrec vp.v_fs_e (req_getinodeblocks vp.v_inode_nr vp.v_dev)
    else pos 0

requests_lem :
    (vfs : Vfs) (mode : ℕ) (vp : Vnode) (es : List Effect)
    → request_if mode 4
        (req_int_fragments vfs vp.v_fs_e vp.v_inode_nr vp.v_dev)
        (request_if mode 2 (req_inode_blocks vfs vp.v_fs_e vp.v_inode_nr vp.v_dev) (pos 0, es))
      ≡ (answer vfs mode vp, es ++ asked mode vp)
requests_lem vfs mode vp es = elim (Bool-cases (bit_and mode 2 == 2)) [
  | inl b ↦ elim (Bool-cases (bit_and mode 4 == 4)) [
    | inl c ↦ rw (b, c, append_assoc) refl
    | inr c ↦ rw (b, c) refl
  ]
  | inr b ↦ elim (Bool-cases (bit_and mode 4 == 4)) [
    | inl c ↦ rw (b, c) refl
    | inr c ↦ rw (b, c, append-nil) refl
  ]
]

with_path_lem :
    (vfs : Vfs) (m : Message) (rest : Vnode → Run (ℤ × List Effect)) (path : List ℕ) (vp : Vnode)
    → vfs.fetch_name m.m1_p1 m.m1_i1 ≡ inr path
    → vfs.eat_path path ≡ inr vp
    → with_path vfs m rest ≡ rest vp
with_path_lem vfs m rest path vp fetched eaten = rw (fetched, eaten) refl

list_users_done :
    (vfs : Vfs) (mode : ℕ) (vp : Vnode) (s : Scan)
    → bit_and mode 1 ≡ 1
    → scan_procs vp.address vfs.fproc (first_scan vfs.pid_info) ≡ done s
    → list_users vfs mode vp ≡ done (s.effects ++ (print_count s.f_open_count ∷ []))
list_users_done vfs mode vp s bit e = rw (bit, e) refl

list_users_fault :
    (vfs : Vfs) (mode : ℕ) (vp : Vnode)
    → bit_and mode 1 ≡ 1
    → scan_procs vp.address vfs.fproc (first_scan vfs.pid_info) ≡ fault
    → list_users vfs mode vp ≡ fault
list_users_fault vfs mode vp bit e = rw (bit, e) refl

-- With a name that `fetch_name` and `eat_path` resolve to `vp`, with the bit 0x1 in the mode, and
-- with room for a pair for each open file of the vnode and one behind them, the call `fileinfo`
-- returns: the lines printed are a header, if there is a user, and the pid and the mode of each
-- open file of the vnode in the order of the processes, then their number; the requests of the bits
-- 0x2 and 0x4 are sent after them, with a line printed in front of the second; the locks and the
-- vnode are given back; and the caller gets what `_syscall` makes of the answer of the last
-- request, or of OK without one.
pub fileinfo_lem :
    (returned : ℤ → ℤ) (vfs : Vfs) (address : ℕ) (fname path : List ℕ) (mode : ℕ) (vp : Vnode)
    → vfs.fetch_name address (length fname + 1) ≡ inr path
    → vfs.eat_path path ≡ inr vp
    → bit_and mode 1 ≡ 1
    → 2 * length (users vp.address vfs.fproc) + 1 < length vfs.pid_info
    → fileinfo (syscall_of returned vfs) address fname mode
      ≡ done (
        returned (answer vfs mode vp),
        ((shown (users vp.address vfs.fproc)
                ++ (print_count (length (users vp.address vfs.fproc)) ∷ []))
              ++ asked mode vp)
            ++ release vp,
      )
unfolding fileinfo do_fileinfo fileinfo_of shown
fileinfo_lem returned vfs address fname path mode vp fetched eaten bit fits =
    let (s, e, met) =
      scan_procs-Gives (length vfs.pid_info) vp.address vfs.fproc [] (first_scan vfs.pid_info)
        (omega (arith, fits)) (record { count = refl; size = refl; effects = refl }) in
    let m : Message = record { m1_i1 = length fname + 1; m1_i2 = mode; m1_p1 = address } in
    rw
      (
        with_path_lem vfs m (fileinfo_of vfs mode) path vp fetched eaten,
        list_users_done vfs mode vp s bit e,
        met.effects,
        met.count,
        requests_lem vfs mode vp,
      )
      refl

-- The array `pid_info` has an entry for each process, and two are written for each open file of the
-- vnode: with a user, and without room for a pair behind them, the call writes behind the
-- array.
pub fileinfo-overflow :
    (returned : ℤ → ℤ) (vfs : Vfs) (address : ℕ) (fname path : List ℕ) (mode : ℕ) (vp : Vnode)
    → vfs.fetch_name address (length fname + 1) ≡ inr path
    → vfs.eat_path path ≡ inr vp
    → bit_and mode 1 ≡ 1
    → 0 < length (users vp.address vfs.fproc)
    → length vfs.pid_info ≤ 2 * length (users vp.address vfs.fproc) + 1
    → fileinfo (syscall_of returned vfs) address fname mode ≡ fault
unfolding fileinfo do_fileinfo fileinfo_of shown
fileinfo-overflow returned vfs address fname path mode vp fetched eaten bit some_users over =
    let full =
      scan_procs-full (length vfs.pid_info) vp.address vfs.fproc [] (first_scan vfs.pid_info)
        (omega arith) some_users (omega (arith, over))
        (record { count = refl; size = refl; effects = refl }) in
    let m : Message = record { m1_i1 = length fname + 1; m1_i2 = mode; m1_p1 = address } in
    rw
      (
        with_path_lem vfs m (fileinfo_of vfs mode) path vp fetched eaten,
        list_users_fault vfs mode vp bit full,
      )
      refl
