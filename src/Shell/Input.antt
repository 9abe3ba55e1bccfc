-- ===== src/Shell/Input.antt =====
-- `is_empty` and `read_command` of prj_1/mrpsh.c, and `cleanCmd` of prj_1/parser.c.
pub mod Laws
mod Tests
use cs551os.Prelude.{
  ℕ, zero, suc, ◌+◌, Bool, true, false, ◌&&◌, ◌||◌, not, List, [], ◌∷◌, ◌++◌, ◌==◌, ltb, leb,
  length, if◌then◌else◌, Option, none, some, get_elem?, take, map, Run, done, fault, access, ◌>>=◌,
}
use cs551os.Lines.{Text, newline}

-- A byte that `is_empty` looks for.
abbrev pub visible : ℕ → Bool
visible c = ltb 32 c && ltb c 127

unfoldable pub is_empty : Text → Bool
is_empty [] = true
is_empty (c ∷ line) = let rest = is_empty line in if visible c then false else rest

-- The buffer of `read_command`.
abbrev pub command_size : ℕ
command_size = 256

-- `*(cmd+len-1) = 0`
abbrev pub cut_last : Text → Option Text
cut_last [] = none
cut_last (c ∷ cmd) = some (take (length cmd) (c ∷ cmd))

-- The loop of `read_command`, with the bytes stored so far. At the end of the input `scanf` gives
-- -1; either way the last byte stored is overwritten by the terminator.
unfoldable pub read_bytes : Text → Text → Run (Text × Text)
read_bytes [] cmd = do l ← access (cut_last cmd); done (l, [])
read_bytes (c ∷ input) cmd =
    let stored = cmd ++ (c ∷ []) in
    let rest = read_bytes input stored in
    let ends = (do l ← access (cut_last stored); done (l, input)) in
    if ltb (length cmd) command_size then if c == newline then ends else rest else fault

-- The command, and what is left of the input.
unfoldable pub read_command : Text → Run (Text × Text)
read_command input = read_bytes input []

-- `pCmd[i] <= 0x20`: a char is signed, so bytes from 128 on are negative.
abbrev pub blank : ℕ → Bool
blank c = leb c 32 || leb 128 c

-- The tabs become spaces.
abbrev pub tab_to_space : ℕ → ℕ
tab_to_space c = if c == 9 then 32 else c

-- The second loop, on the bytes before `i + 1`. As `i` is a size_t, `i >= 0` holds always: behind 0
-- the loop reads far outside of the string.
unfoldable pub drop_trailing : ℕ → Text → Run Text
drop_trailing zero s = fault
drop_trailing (suc i) s =
    let rest = drop_trailing i (take i s) in
    do c ← access (get_elem? s i); if blank c then rest else done s

-- The third loop, which moves `p` behind the leading blanks.
unfoldable pub drop_leading : Text → Text
drop_leading [] = []
drop_leading (c ∷ s) = let rest = drop_leading s in if blank c then rest else c ∷ s

-- With `n` the length of the string, as everywhere.
unfoldable pub clean_cmd : Text → Run Text
clean_cmd s = do t ← drop_trailing (length s) (map tab_to_space s); done (drop_leading t)
