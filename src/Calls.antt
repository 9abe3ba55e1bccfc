-- ===== src/Calls.antt =====
-- The numbers of the added system calls and requests, and the tables that lead them to their
-- handlers: prj_2/src/table.c and callnr.h, and prj_3/src with vfs/table.c, mfs/table.c,
-- hgfs/table.c, src-lib-libvtreefs/table.c, callnr.h and include-minix/vfsif.h.
pub mod Vfs
pub mod Servers
pub mod Routes
use cs551os.Prelude.{ℕ, zero, suc, ◌+◌, List, [], ◌∷◌, ◌==◌, if◌then◌else◌}

-- The places of a table from `i` on that hold the handler of a code.
abbrev pub places {ℓ} : {A : Type ℓ} → (A → ℕ) → ℕ → ℕ → List A → List ℕ
places code h i [] = []
places code h i (x ∷ xs) =
    let rest = places code h (i + 1) xs in if code x == h then i ∷ rest else rest

-- The places from `i` on at which two tables differ.
abbrev pub differences {ℓ} : {A : Type ℓ} → (A → ℕ) → ℕ → List A → List A → List ℕ
differences code i [] ys = []
differences code i (x ∷ xs) [] = []
differences code i (x ∷ xs) (y ∷ ys) =
    let rest = differences code (i + 1) xs ys in if code x == code y then rest else i ∷ rest
