-- ===== src/FsTool/Tests.antt =====
-- Two processes, one with the file open twice.
use cs551os.Prelude.{
  ℕ, ◌≡◌, refl, [], ◌∷◌, ◌++◌, ℤ, pos, negsuc, minus_one, none, some, Option, List, length, done,
  fault, inr, arith, replicate,
}
use cs551os.FsTool.{Vfs, Vnode, Fproc, Filp, fileinfo, syscall_of, release, print_count}
use cs551os.FsTool.Users.{users, shown}
use cs551os.FsTool.Handlers.{asked, answer, fileinfo_lem, fileinfo-overflow}

abbrev a_vnode : Vnode
a_vnode = record { address = 70; v_fs_e = 5; v_inode_nr = 12; v_dev = 3 }

abbrev the_file : Option Filp
the_file = some (record { filp_vno = 70; filp_mode = 1 })

abbrev processes : List Fproc
processes =
    record { fp_pid = 31; fp_filp = the_file ∷ none ∷ the_file ∷ [] }
    ∷ record { fp_pid = 0; fp_filp = the_file ∷ [] }
    ∷ record { fp_pid = 32; fp_filp = some (record { filp_vno = 71; filp_mode = 1 }) ∷ [] }
    ∷ []

-- A VFS of six processes, and one of four.
abbrev a_vfs : ℕ → Vfs
a_vfs n = record {
  fproc = processes;
  fetch_name = λ address len. inr (replicate len address);
  eat_path = λ path. inr a_vnode;
  fs_sendrec = λ e m. pos e;
  pid_info = replicate n (pos 0);
}

-- MINIX gives -1 for an error.
abbrev returned : ℤ → ℤ
returned (pos n) = pos n
returned (negsuc n) = minus_one

abbrev name : List ℕ
name = 47 ∷ 97 ∷ []

fileinfo_lem_example :
    fileinfo (syscall_of returned (a_vfs 6)) 8 name 3
    ≡ done (
      returned (answer (a_vfs 6) 3 a_vnode),
      ((shown (users 70 processes) ++ (print_count (length (users 70 processes)) ∷ []))
            ++ asked 3 a_vnode)
          ++ release a_vnode,
    )
unfolding users cs551os.FsTool.Users.filp_users
fileinfo_lem_example =
    fileinfo_lem returned (a_vfs 6) 8 name (replicate 3 8) 3 a_vnode refl refl refl (omega arith)

fileinfo-overflow_example : fileinfo (syscall_of returned (a_vfs 4)) 8 name 3 ≡ fault
unfolding users cs551os.FsTool.Users.filp_users
fileinfo-overflow_example =
    fileinfo-overflow returned (a_vfs 4) 8 name (replicate 3 8) 3 a_vnode refl refl refl
      (omega arith) (omega arith)
